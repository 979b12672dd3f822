-- ===== src/Ws/Conn/Invariant.antt =====
-- crates/sutegi-ws/src/reactor.rs: the invariant of a connection, and the calls that send.
use sutegi.Base.{
  ℕ, ◌+◌, ◌-◌, ◌≤◌, ◌≡◌, refl, arith, ap, ◌∙◌, ◌&&◌, min, true, not, Option, none, some, List, [],
  ◌∷◌, ◌++◌, Bytes, ltb, leb, if◌then◌else◌, length, All, if_rule, take, drop,
}
use Prim.Native.Nat.{max}
use sutegi.Ws.Protocol.{Opcode, ProtocolError, close_code, encode_frame, ping}
use sutegi.Ws.Close.{encode_close}
use sutegi.Ws.Conn.{
  Config, ConnState, OutBuf, Write, wrote, would_block, interrupted, failed, Msg, World, code_or,
  remove, drained, advance, flush_loop, flush_out, enqueue, start_closing, begin_close,
  protocol_error, tick,
}

-- The bytes that a queue still has to send.
abbrev pub queued : List OutBuf → ℕ
queued [] = 0
queued (b ∷ bs) = (length b.buf - b.pos) + queued bs

abbrev pub limit : Config → ℕ
limit cfg = max cfg.max_frame cfg.max_message

abbrev pub Fits : Config → Option (Opcode × Bytes) → Type 0
Fits cfg none = Unit
Fits cfg (some (op, bytes)) = length bytes ≤ limit cfg

-- The counters of a live connection.
pub record IsGood (cfg : Config) (s : ConnState) : Type 0 where
  pub accounted : s.out_bytes ≡ queued s.out
  pub bounded : s.out_bytes ≤ cfg.max_buffered
  pub fits : Fits cfg s.assembly

-- `on_close` has been called once for a vacant slot, and not yet for a live connection.
abbrev pub SlotValid : Config → Option ConnState → List ℕ → Type 0
SlotValid cfg none closed = length closed ≡ 1
SlotValid cfg (some s) closed = (closed ≡ []) × IsGood cfg s

pub record IsValid (cfg : Config) (w : World) : Type 0 where
  pub held : SlotValid cfg w.slot w.closed
  pub small : All (λ m. length m.body ≤ limit cfg) w.delivered

abbrev Small : Config → List Msg → Type 0
Small cfg ms = All (λ m. length m.body ≤ limit cfg) ms

-- A claim about a valid world, split on its slot: the record's η puts the slot back.
pub by_slot :
    (cfg : Config) (P : World → Type 0)
    → ((w : World) → IsValid cfg (record w { slot = none }) → P (record w { slot = none }))
    → ((w : World) (s : ConnState)
        → w.closed ≡ []
        → IsGood cfg s
        → All (λ m. length m.body ≤ limit cfg) w.delivered
        → P (record w { slot = some s }))
    → (w : World) → IsValid cfg w
    → P w
by_slot cfg P vacant live w v = go w.slot v.held
  where
    go : (slot : Option ConnState) → SlotValid cfg slot w.closed → P (record w { slot = slot })
    go none h = vacant w (record { held = h; small = v.small })
    go (some s) (c, g) = live w s c g v.small

module _ (cfg : Config) where
  -- A live connection may be removed whatever its counters say.
  pub remove_live-IsValid :
      (code : ℕ) (w : World) (s : ConnState)
      → w.closed ≡ []
      → All (λ m. length m.body ≤ limit cfg) w.delivered
      → IsValid cfg (remove code (record w { slot = some s }))
  unfolding remove
  remove_live-IsValid code w s c d = record { held = rw c; small = d }

  pub remove-IsValid : (code : ℕ) (w : World) → IsValid cfg w → IsValid cfg (remove code w)
  remove-IsValid code =
      by_slot cfg (λ w. IsValid cfg (remove code w)) (λ w v. unfold remove in v)
        (λ w s c g d. remove_live-IsValid code w s c d)

  drained-IsValid :
      (s : ConnState) (w : World)
      → w.closed ≡ []
      → IsGood cfg s
      → Small cfg w.delivered
      → IsValid cfg (drained s (record w { slot = some s }))
  unfolding drained
  drained-IsValid s w c g d =
      if_rule (IsValid cfg) s.peer_closed _ _
        (λ _. remove_live-IsValid (code_or 1000 s.closing) w s c d)
        (λ _. record {
          held = (c, record { accounted = g.accounted; bounded = g.bounded; fits = g.fits });
          small = d;
        })

  advance-IsGood :
      (s : ConnState) (front : OutBuf) (rest : List OutBuf) (n : ℕ)
      → s.out ≡ front ∷ rest
      → n ≤ length front.buf - front.pos
      → IsGood cfg s
      → IsGood cfg (advance s front rest n)
  unfolding advance
  advance-IsGood s front rest n e h g =
      let acc : s.out_bytes ≡ queued (front ∷ rest) = g.accounted ∙ ap queued e in
      record { accounted = ground arith; bounded = omega (arith, g.bounded); fits = g.fits }

  flush_loop-IsValid :
      (script : List Write) (out : List OutBuf) (s : ConnState) (w : World)
      → s.out ≡ out
      → w.closed ≡ []
      → IsGood cfg s
      → Small cfg w.delivered
      → IsValid cfg (flush_loop script out s w)
  unfolding flush_loop
  flush_loop-IsValid script [] s w e c g d = drained-IsValid s (record w { script = script }) c g d
  flush_loop-IsValid [] (front ∷ rest) s w e c g d = record {
    held = (c, record { accounted = g.accounted; bounded = g.bounded; fits = g.fits });
    small = d;
  }
  flush_loop-IsValid (would_block ∷ script) (front ∷ rest) s w e c g d = record {
    held = (c, record { accounted = g.accounted; bounded = g.bounded; fits = g.fits });
    small = d;
  }
  flush_loop-IsValid (interrupted ∷ script) (front ∷ rest) s w e c g d =
      flush_loop-IsValid script (front ∷ rest) s w e c g d
  flush_loop-IsValid (failed ∷ script) (front ∷ rest) s w e c g d =
      remove_live-IsValid 1006 (record w { script = script }) s c d
  flush_loop-IsValid (wrote n ∷ script) (front ∷ rest) s w e c g d =
      let k = min n (length front.buf - front.pos) in
      let s' = advance s front rest k in
      flush_loop-IsValid script s'.out s'
        (record w { wire = w.wire ++ take k (drop front.pos front.buf) }) refl c
        (advance-IsGood s front rest k e (omega arith) g) d

  pub flush_out-IsValid : (w : World) → IsValid cfg w → IsValid cfg (flush_out w)
  unfolding flush_out
  flush_out-IsValid =
      by_slot cfg (λ w. IsValid cfg (flush_out w)) (λ w v. v)
        (λ w s c g d. flush_loop-IsValid w.script s.out s (record w { slot = some s }) refl c g d)

  queued-snoc :
      (bs : List OutBuf) (b : OutBuf) → queued (bs ++ b ∷ []) ≡ queued bs + (length b.buf - b.pos)
  queued-snoc [] b = omega arith
  queued-snoc (x ∷ bs) b = omega (arith, queued-snoc bs b)

  -- Queueing keeps the counters right, and a queue past its cap drops the connection.
  pub enqueue-IsValid : (buf : Bytes) (w : World) → IsValid cfg w → IsValid cfg (enqueue cfg buf w)
  unfolding enqueue
  enqueue-IsValid buf =
      by_slot cfg (λ w. IsValid cfg (enqueue cfg buf w)) (λ w v. v)
        (λ w s c g d.
          if_rule (IsValid cfg) (ltb cfg.max_buffered (s.out_bytes + length buf)) _ _
            (λ _. remove_live-IsValid 1006 w _ c d)
            (λ fits. flush_out-IsValid _ (record {
              held = (
                c,
                record {
                  accounted =
                      omega (arith, g.accounted, queued-snoc s.out (record { buf = buf; pos = 0 }));
                  bounded = ground arith;
                  fits = g.fits;
                },
              );
              small = d;
            })))

  start_closing-IsValid :
      (now code : ℕ) (w : World) → IsValid cfg w → IsValid cfg (start_closing cfg now code w)
  unfolding start_closing
  start_closing-IsValid now code =
      by_slot cfg (λ w. IsValid cfg (start_closing cfg now code w)) (λ w v. v)
        (λ w s c g d. record {
          held = (c, record { accounted = g.accounted; bounded = g.bounded; fits = tt });
          small = d;
        })

  pub begin_close-IsValid :
      (now code : ℕ) (reason : Bytes) (w : World)
      → IsValid cfg w
      → IsValid cfg (begin_close cfg now code reason w)
  unfolding begin_close
  begin_close-IsValid now code reason =
      by_slot cfg (λ w. IsValid cfg (begin_close cfg now code reason w)) (λ w v. v)
        (λ w s c g d. unless_closing w s.closing s (record { held = (c, g); small = d }))
    where
      unless_closing :
          (w : World) (closing : Option (ℕ × ℕ)) (s : ConnState)
          → IsValid cfg (record w { slot = some s })
          → IsValid cfg (elim closing [
            | some c ↦ record w { slot = some s }
            | none ↦
                start_closing cfg now code
                  (enqueue cfg (encode_close code reason) (record w { slot = some s }))
          ])
      unless_closing w (some c) s v = v
      unless_closing w none s v =
          start_closing-IsValid now code _ (enqueue-IsValid (encode_close code reason) _ v)

  pub protocol_error-IsValid :
      (now : ℕ) (e : ProtocolError) (w : World)
      → IsValid cfg w
      → IsValid cfg (protocol_error cfg now e w)
  unfolding protocol_error
  protocol_error-IsValid now e = begin_close-IsValid now (close_code e) []

  -- A sweep keeps the connection valid: it drops it, pings it or leaves it.
  pub tick-IsValid : (now : ℕ) (w : World) → IsValid cfg w → IsValid cfg (tick cfg now w)
  unfolding tick
  tick-IsValid now =
      by_slot cfg (λ w. IsValid cfg (tick cfg now w)) (λ w v. v)
        (λ w s c g d. by_closing w s.closing s c g d)
    where
      by_closing :
          (w : World) (closing : Option (ℕ × ℕ)) (s : ConnState)
          → w.closed ≡ []
          → IsGood cfg s
          → Small cfg w.delivered
          → IsValid cfg (elim closing [
            | some (deadline, code) ↦
                if leb deadline now
                then remove code (record w { slot = some s })
                else record w { slot = some s }
            | none ↦
                let idle = now - s.last_activity in
                if leb cfg.idle_timeout idle
                then remove 1006 (record w { slot = some s })
                else if leb cfg.ping_interval idle && not s.awaiting_pong
                then enqueue cfg
                    (encode_frame ping [] true)
                    (record w { slot = some (record s { awaiting_pong = true }) })
                else record w { slot = some s }
          ])
      by_closing w (some (deadline, code)) s c g d =
          if_rule (IsValid cfg) (leb deadline now) _ _ (λ _. remove_live-IsValid code w s c d)
            (λ _. record { held = (c, g); small = d })
      by_closing w none s c g d =
          if_rule (IsValid cfg) (leb cfg.idle_timeout (now - s.last_activity)) _ _
            (λ _. remove_live-IsValid 1006 w s c d)
            (λ _.
              if_rule (IsValid cfg)
                (leb cfg.ping_interval (now - s.last_activity) && not s.awaiting_pong) _ _
                (λ _. enqueue-IsValid (encode_frame ping [] true) _ (record {
                  held =
                      (c, record { accounted = g.accounted; bounded = g.bounded; fits = g.fits });
                  small = d;
                }))
                (λ _. record { held = (c, g); small = d }))
