-- ===== src/Ws/Conn.antt =====
-- crates/sutegi-ws/src/reactor.rs: one connection of a shard. `World` is the connection's slab
-- slot with what leaves it: messages for the handler, codes for `on_close`, bytes on the wire.
-- The socket's answers to `write` are a script that is used up from the front, and the handler's own
-- sends reach the shard later, through its inbox. Time is in seconds.
pub mod Receive
pub mod Invariant
pub mod Receiving
pub mod Reachable
pub mod Closing
use sutegi.Base.{
  ℕ, zero, suc, ◌+◌, ◌-◌, ◌^◌, min, Bool, true, false, not, ◌&&◌, Option, none, some, List, [], ◌∷◌,
  ◌++◌, Bytes, ltb, leb, ◌==◌, if◌then◌else◌, length, take, drop,
}
use sutegi.Ws.Protocol.{
  Result, ok, err, Opcode, continuation, text, binary, close, ping, pong, Frame, ProtocolError,
  too_big, bad_fragmentation, bad_utf8, close_code, decode_frame, encode_frame,
}
use sutegi.Ws.Close.{encode_close, parse_close}

-- The part of `WsConfig` that a connection reads.
pub record Config : Type 0 where
  pub max_frame : ℕ
  pub max_message : ℕ
  pub ping_interval : ℕ
  pub idle_timeout : ℕ
  pub max_buffered : ℕ

pub record OutBuf : Type 0 where
  pub buf : Bytes
  pub pos : ℕ

pub record ConnState : Type 0 where
  pub rbuf : Bytes
  pub assembly : Option (Opcode × Bytes)
  pub out : List OutBuf
  pub out_bytes : ℕ
  pub want_write : Bool
  pub closing : Option (ℕ × ℕ)
  pub peer_closed : Bool
  pub last_activity : ℕ
  pub awaiting_pong : Bool

-- What one call of `write` answers; it takes no more than it is given.
pub data Write : Type 0 where
  wrote : ℕ → Write
  would_block interrupted failed : Write

pub record Msg : Type 0 where
  pub is_text : Bool
  pub body : Bytes

pub record World : Type 0 where
  pub slot : Option ConnState
  pub delivered : List Msg
  pub closed : List ℕ
  pub wire : Bytes
  pub script : List Write

abbrev pub close_grace : ℕ
close_grace = 5

-- `remove`: a vacant slot is left alone, so `on_close` is called once.
unfoldable pub remove : ℕ → World → World
remove code w = elim w.slot [
  | none ↦ w
  | some s ↦ record w { slot = none; closed = w.closed ++ code ∷ [] }
]

abbrev pub code_or : ℕ → Option (ℕ × ℕ) → ℕ
code_or d none = d
code_or d (some (_, code)) = code

-- The queue is drained: after the peer's close frame the server hangs up.
unfoldable pub drained : ConnState → World → World
drained s w =
    if s.peer_closed
    then remove (code_or 1000 s.closing) w
    else record w { slot = some (record s { want_write = false }) }

-- `front.pos += n; out_bytes -= n`, and the buffer goes once it is written whole.
abbrev remaining : OutBuf → ℕ
remaining b = length b.buf - b.pos

unfoldable pub advance : ConnState → OutBuf → List OutBuf → ℕ → ConnState
advance s front rest n =
    let pos = front.pos + n in
    record s {
      out = if pos == length front.buf then rest else record front { pos = pos } ∷ rest;
      out_bytes = s.out_bytes - n;
    }

-- The loop of `flush_out` on a live connection, `out` being its queue: one answer of `write` a
-- round. Without a further answer the socket blocks.
unfoldable pub flush_loop : List Write → List OutBuf → ConnState → World → World
flush_loop script [] s w = drained s (record w { slot = some s; script = script })
flush_loop [] (front ∷ rest) s w = record w {
  slot = some (record s { want_write = true });
  script = [];
}
flush_loop (would_block ∷ script) (front ∷ rest) s w = record w {
  slot = some (record s { want_write = true });
  script = script;
}
flush_loop (interrupted ∷ script) (front ∷ rest) s w = flush_loop script (front ∷ rest) s w
flush_loop (failed ∷ script) (front ∷ rest) s w =
    remove 1006 (record w { slot = some s; script = script })
flush_loop (wrote n ∷ script) (front ∷ rest) s w =
    let k = min n (remaining front) in
    let s' = advance s front rest k in
    flush_loop script s'.out s' (record w { wire = w.wire ++ take k (drop front.pos front.buf) })

unfoldable pub flush_out : World → World
flush_out w = elim w.slot [ none ↦ w | some s ↦ flush_loop w.script s.out s w ]

abbrev pushed : Bytes → ConnState → ConnState
pushed buf s = record s {
  out = s.out ++ record { buf = buf; pos = 0 } ∷ [];
  out_bytes = s.out_bytes + length buf;
}

module _ (cfg : Config) where
  -- A consumer that is too slow is dropped.
  unfoldable pub enqueue : Bytes → World → World
  enqueue buf w = elim w.slot [
    | none ↦ w
    | some s ↦
        let queued = record w { slot = some (pushed buf s) } in
        if ltb cfg.max_buffered (s.out_bytes + length buf)
        then remove 1006 queued
        else flush_out queued
  ]

  -- `state.closing = Some(..); state.assembly = None` on a connection that is still there.
  unfoldable pub start_closing : ℕ → ℕ → World → World
  start_closing now code w = elim w.slot [
    | none ↦ w
    | some s ↦ record w {
      slot = some (record s { closing = some (now + close_grace, code); assembly = none });
    }
  ]

  unfoldable pub begin_close : ℕ → ℕ → Bytes → World → World
  begin_close now code reason w = elim w.slot [
    | none ↦ w
    | some s ↦ elim s.closing [
      | some c ↦ w
      | none ↦ start_closing now code (enqueue (encode_close code reason) w)
    ]
  ]

  unfoldable pub protocol_error : ℕ → ProtocolError → World → World
  protocol_error now e w = begin_close now (close_code e) [] w

  -- The part of `tick` that is about this connection.
  unfoldable pub tick : ℕ → World → World
  tick now w = elim w.slot [
    | none ↦ w
    | some s ↦ elim s.closing [
      | some (deadline, code) ↦ if leb deadline now then remove code w else w
      | none ↦
          let idle = now - s.last_activity in
          if leb cfg.idle_timeout idle
          then remove 1006 w
          else if leb cfg.ping_interval idle && not s.awaiting_pong
          then enqueue (encode_frame ping [] true)
              (record w { slot = some (record s { awaiting_pong = true }) })
          else w
    ]
  ]
