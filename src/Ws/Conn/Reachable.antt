-- ===== src/Ws/Conn/Reachable.antt =====
-- crates/sutegi-ws/src/reactor.rs: every history of a connection: reads in any chunks, resumed parsing, writable events, sweeps, and
-- commands from the inbox, in any order.
use sutegi.Base.{
  ℕ, zero, suc, ◌+◌, ◌≡◌, refl, Bool, false, Option, none, some, List, [], ◌∷◌, ◌++◌, Bytes, leb,
  length, if_rule, drop,
}
use sutegi.Ws.Protocol.{Result, ok, err, Frame, ProtocolError, decode_frame}
use sutegi.Ws.Protocol.Decoding.{decode_frame_bounds}
use sutegi.Ws.Conn.{
  Config, ConnState, Write, World, code_or, flush_out, enqueue, begin_close, protocol_error, tick,
}
use sutegi.Ws.Conn.Receive.{
  Read, chunk, would_block, interrupted, failed, ReadEnd, open_end, eof, broken, frames_per_wake,
  read_quantum, handle_frame, drain, parse_loop, parse_frames, read_loop, hang_up, after_read,
  handle_readable,
}
use sutegi.Ws.Conn.Invariant.{
  IsGood, IsValid, by_slot, remove-IsValid, remove_live-IsValid, enqueue-IsValid, flush_out-IsValid,
  begin_close-IsValid, protocol_error-IsValid, tick-IsValid,
}
use sutegi.Ws.Conn.Receiving.{handle_frame-IsValid, drain-IsValid}

module _ (valid_utf8 : Bytes → Bool) (cfg : Config) (now : ℕ) where
  -- One round of the loop on a live connection, given what the later rounds do.
  by_decoding :
      (budget consumed : ℕ) (w : World) (s : ConnState)
      → ((n : ℕ) (w : World)
          → IsValid cfg w
          → IsValid cfg (parse_loop valid_utf8 cfg now budget n w).0)
      → IsValid cfg (record w { slot = some s })
      → IsValid cfg
          (parse_loop valid_utf8 cfg now (suc budget) consumed (record w { slot = some s })).0
  unfolding parse_loop
  by_decoding budget consumed w s later v =
      go (decode_frame (drop consumed s.rbuf) cfg.max_frame) refl
    where
      live : World
      live = record w { slot = some s }

      go :
          (r : Result ProtocolError (Option (Frame × ℕ)))
          → decode_frame (drop consumed s.rbuf) cfg.max_frame ≡ r
          → IsValid cfg (
              let round : World × Bool = elim r [
                | ok none ↦ (drain valid_utf8 cfg now consumed live, false)
                | ok (some (f, used)) ↦
                    parse_loop valid_utf8 cfg now budget
                      (consumed + used)
                      (handle_frame valid_utf8 cfg now f live)
                | err e ↦ (protocol_error cfg now e live, false)
              ] in
              round.0)
      go (err e) p = protocol_error-IsValid cfg now e live v
      go (ok none) p = drain-IsValid valid_utf8 cfg now consumed live v
      go (ok (some (f, used))) p =
          let (_, fits, _, _, _) =
            decode_frame_bounds (drop consumed s.rbuf) cfg.max_frame f used p in
          later (consumed + used) _ (handle_frame-IsValid valid_utf8 cfg now f live fits v)

  pub parse_loop-IsValid :
      (budget consumed : ℕ) (w : World)
      → IsValid cfg w
      → IsValid cfg (parse_loop valid_utf8 cfg now budget consumed w).0
  unfolding parse_loop
  parse_loop-IsValid zero consumed =
      by_slot cfg (λ w. IsValid cfg (parse_loop valid_utf8 cfg now zero consumed w).0) (λ w v. v)
        (λ w s c g d.
          drain-IsValid valid_utf8 cfg now consumed _ (record { held = (c, g); small = d }))
  parse_loop-IsValid (suc budget) consumed =
      by_slot cfg (λ w. IsValid cfg (parse_loop valid_utf8 cfg now (suc budget) consumed w).0)
        (λ w v. v)
        (λ w s c g d.
          by_decoding budget consumed w s (parse_loop-IsValid budget)
            (record { held = (c, g); small = d }))

  read_loop-IsGood :
      (reads : List Read) (total : ℕ) (s : ConnState)
      → IsGood cfg s
      → IsGood cfg (read_loop valid_utf8 cfg now reads total s).0
  unfolding read_loop
  read_loop-IsGood [] total s g = g
  read_loop-IsGood (would_block ∷ reads) total s g = g
  read_loop-IsGood (interrupted ∷ reads) total s g = read_loop-IsGood reads total s g
  read_loop-IsGood (failed ∷ reads) total s g = g
  read_loop-IsGood (chunk [] ∷ reads) total s g = g
  read_loop-IsGood (chunk (b ∷ bs) ∷ reads) total s g =
      let g' : IsGood cfg
          (record s { rbuf = s.rbuf ++ b ∷ bs; last_activity = now; awaiting_pong = false }) =
        record { accounted = g.accounted; bounded = g.bounded; fits = g.fits } in
      if_rule (λ (r : ConnState × ReadEnd). IsGood cfg r.0)
        (leb read_quantum (total + length (b ∷ bs))) _ _ (λ _. g')
        (λ _. read_loop-IsGood reads (total + length (b ∷ bs)) _ g')

  hang_up-IsValid :
      (r : World × Bool) → IsValid cfg r.0 → IsValid cfg (hang_up valid_utf8 cfg now r).0
  unfolding hang_up
  hang_up-IsValid (w, parked) =
      by_slot cfg (λ w. IsValid cfg (hang_up valid_utf8 cfg now (w, parked)).0) (λ w v. v)
        (λ w s c g d. remove_live-IsValid cfg (code_or 1006 s.closing) w s c d) w

  pub parse_frames-IsValid :
      (w : World) → IsValid cfg w → IsValid cfg (parse_frames valid_utf8 cfg now w).0
  unfolding parse_frames
  parse_frames-IsValid w v = parse_loop-IsValid frames_per_wake 0 w v

  after_read-IsValid :
      (r : ConnState × ReadEnd) (w : World)
      → IsValid cfg (record w { slot = some r.0 })
      → IsValid cfg (after_read valid_utf8 cfg now r w).0
  unfolding after_read
  after_read-IsValid (s, open_end) w v = parse_frames-IsValid _ v
  after_read-IsValid (s, eof) w v = hang_up-IsValid _ (parse_frames-IsValid _ v)
  after_read-IsValid (s, broken) w v = remove-IsValid cfg 1006 _ v

  pub handle_readable-IsValid :
      (reads : List Read) (w : World)
      → IsValid cfg w
      → IsValid cfg (handle_readable valid_utf8 cfg now reads w).0
  unfolding handle_readable
  handle_readable-IsValid reads =
      by_slot cfg (λ w. IsValid cfg (handle_readable valid_utf8 cfg now reads w).0) (λ w v. v)
        (λ w s c g d.
          after_read-IsValid (read_loop valid_utf8 cfg now reads 0 s) _
            (record { held = (c, read_loop-IsGood reads 0 s g); small = d }))

-- What the shard's loop does to one connection: `Step` has a constructor for each call.
pub data Step (valid_utf8 : Bytes → Bool) (cfg : Config) : World → World → Type 0 where
  readable :
      (now : ℕ) (reads : List Read) (w : World)
      → Step valid_utf8 cfg w (handle_readable valid_utf8 cfg now reads w).0
  resumed : (now : ℕ) (w : World) → Step valid_utf8 cfg w (parse_frames valid_utf8 cfg now w).0
  writable : (w : World) → Step valid_utf8 cfg w (flush_out w)
  answers : (script : List Write) (w : World) → Step valid_utf8 cfg w (record w { script = script })
  send : (buf : Bytes) (w : World) → Step valid_utf8 cfg w (enqueue cfg buf w)
  close_with :
      (now code : ℕ) (reason : Bytes) (w : World)
      → Step valid_utf8 cfg w (begin_close cfg now code reason w)
  swept : (now : ℕ) (w : World) → Step valid_utf8 cfg w (tick cfg now w)

pub data Reach (valid_utf8 : Bytes → Bool) (cfg : Config) (w : World) : World → Type 0 where
  here : Reach valid_utf8 cfg w w
  next :
      {u v : World} → Reach valid_utf8 cfg w u → Step valid_utf8 cfg u v → Reach valid_utf8 cfg w v

Step-IsValid :
    (valid_utf8 : Bytes → Bool) (cfg : Config) {w u : World}
    → Step valid_utf8 cfg w u
    → IsValid cfg w
    → IsValid cfg u
Step-IsValid valid_utf8 cfg (readable now reads w) v =
    handle_readable-IsValid valid_utf8 cfg now reads w v
Step-IsValid valid_utf8 cfg (resumed now w) v = parse_frames-IsValid valid_utf8 cfg now w v
Step-IsValid valid_utf8 cfg (writable w) v = flush_out-IsValid cfg w v
Step-IsValid valid_utf8 cfg (answers script w) v = record { held = v.held; small = v.small }
Step-IsValid valid_utf8 cfg (send buf w) v = enqueue-IsValid cfg buf w v
Step-IsValid valid_utf8 cfg (close_with now code reason w) v =
    begin_close-IsValid cfg now code reason w v
Step-IsValid valid_utf8 cfg (swept now w) v = tick-IsValid cfg now w v

-- In every history of a connection that starts where the invariant holds, it holds: the count of queued bytes is exact and within
-- the cap, the message being assembled and every delivered one are within the larger of the two size
-- limits, and `on_close` has run once if the slot is vacant and not at all if it is live.
pub Reach-IsValid :
    (valid_utf8 : Bytes → Bool) (cfg : Config) {w u : World}
    → IsValid cfg w
    → Reach valid_utf8 cfg w u
    → IsValid cfg u
Reach-IsValid valid_utf8 cfg v here = v
Reach-IsValid valid_utf8 cfg v (next r s) =
    Step-IsValid valid_utf8 cfg s (Reach-IsValid valid_utf8 cfg v r)
