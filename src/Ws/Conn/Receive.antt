-- ===== src/Ws/Conn/Receive.antt =====
-- crates/sutegi-ws/src/reactor.rs: what a connection does with bytes from its peer. `valid_utf8`
-- stands for `std::str::from_utf8(_).is_ok()`.
use sutegi.Base.{
  ℕ, zero, suc, ◌+◌, Bool, true, false, none, some, List, [], ◌∷◌, ◌++◌, Bytes, ltb, leb,
  if◌then◌else◌, length, drop,
}
use sutegi.Ws.Protocol.{
  ok, err, Opcode, continuation, text, close, ping, pong, Frame, too_big, bad_fragmentation,
  bad_utf8, decode_frame, encode_frame,
}
use sutegi.Ws.Close.{encode_close, parse_close}
use sutegi.Ws.Conn.{Config, ConnState, World, close_grace, code_or, remove, enqueue, protocol_error}

abbrev pub frames_per_wake : ℕ
frames_per_wake = 256

abbrev pub read_quantum : ℕ
read_quantum = 131072

-- What one call of `read` answers; end of file is an empty chunk.
pub data Read : Type 0 where
  chunk : Bytes → Read
  would_block interrupted failed : Read

-- How the loop of reads ended.
pub data ReadEnd : Type 0 where
  open_end eof broken : ReadEnd

module _ (valid_utf8 : Bytes → Bool) (cfg : Config) (now : ℕ) where
  -- A complete message goes to the handler.
  unfoldable pub deliver : Opcode → Bytes → World → World
  deliver text payload w =
      if valid_utf8 payload
      then record w { delivered = w.delivered ++ record { is_text = true; body = payload } ∷ [] }
      else protocol_error cfg now bad_utf8 w
  deliver _ payload w = record w {
    delivered = w.delivered ++ record { is_text = false; body = payload } ∷ [];
  }

  -- A close frame that parsed, on a live connection.
  unfoldable pub peer_close : ℕ → ConnState → World → World
  peer_close code s w = elim s.closing [
    | some c ↦ remove code w
    | none ↦ enqueue cfg (encode_close code []) (record w {
      slot = some (record s { closing = some (now + close_grace, code); peer_closed = true });
    })
  ]

  -- A text or binary frame on a connection that is not closing.
  unfoldable pub data_frame : Frame → ConnState → World → World
  data_frame f s w = elim s.assembly [
    | some a ↦ protocol_error cfg now bad_fragmentation w
    | none ↦
        if f.fin
        then deliver f.opcode f.payload w
        else record w { slot = some (record s { assembly = some (f.opcode, f.payload) }) }
  ]

  -- A continuation on a connection that is not closing; `take` empties the assembly first.
  unfoldable pub continue_frame : Frame → ConnState → World → World
  continue_frame f s w = elim s.assembly [
    | none ↦ protocol_error cfg now bad_fragmentation w
    | some (op, bytes) ↦
        let taken = record w { slot = some (record s { assembly = none }) } in
        if ltb cfg.max_message (length bytes + length f.payload)
        then protocol_error cfg now too_big taken
        else if f.fin
        then deliver op (bytes ++ f.payload) taken
        else record w { slot = some (record s { assembly = some (op, bytes ++ f.payload) }) }
  ]

  -- The match of `handle_frame`, on a live connection.
  unfoldable pub dispatch : Opcode → Frame → ConnState → World → World
  dispatch ping f s w = enqueue cfg (encode_frame pong f.payload true) w
  dispatch pong f s w = record w { slot = some (record s { awaiting_pong = false }) }
  dispatch close f s w = elim (parse_close valid_utf8 f.payload) [
    | err e ↦ protocol_error cfg now e w
    | ok (code, _) ↦ peer_close code s w
  ]
  dispatch continuation f s w = elim s.closing [ some c ↦ w | none ↦ continue_frame f s w ]
  dispatch _ f s w = elim s.closing [ some c ↦ w | none ↦ data_frame f s w ]

  unfoldable pub handle_frame : Frame → World → World
  handle_frame f w = elim w.slot [ none ↦ w | some s ↦ dispatch f.opcode f s w ]

  -- `rbuf.drain(..consumed)`, on a connection that is still there.
  unfoldable pub drain : ℕ → World → World
  drain consumed w = elim w.slot [
    | none ↦ w
    | some s ↦ record w { slot = some (record s { rbuf = drop consumed s.rbuf }) }
  ]

  -- The loop of `parse_frames`, with the number of frames that it may still handle; the flag says
  -- that the connection was parked with bytes to parse.
  unfoldable pub parse_loop : ℕ → ℕ → World → World × Bool
  parse_loop zero consumed w = elim w.slot [
    | none ↦ (w, false)
    | some s ↦ (drain consumed w, ltb consumed (length s.rbuf))
  ]
  parse_loop (suc budget) consumed w = elim w.slot [
    | none ↦ (w, false)
    | some s ↦ elim (decode_frame (drop consumed s.rbuf) cfg.max_frame) [
      | ok none ↦ (drain consumed w, false)
      | ok (some (f, used)) ↦ parse_loop budget (consumed + used) (handle_frame f w)
      | err e ↦ (protocol_error cfg now e w, false)
    ]
  ]

  unfoldable pub parse_frames : World → World × Bool
  parse_frames w = parse_loop frames_per_wake 0 w

  -- The read loop of `handle_readable`; it pauses when a quantum has been read.
  unfoldable pub read_loop : List Read → ℕ → ConnState → ConnState × ReadEnd
  read_loop [] total s = (s, open_end)
  read_loop (would_block ∷ reads) total s = (s, open_end)
  read_loop (interrupted ∷ reads) total s = read_loop reads total s
  read_loop (failed ∷ reads) total s = (s, broken)
  read_loop (chunk [] ∷ reads) total s = (s, eof)
  read_loop (chunk (b ∷ bs) ∷ reads) total s =
      let got : Bytes = b ∷ bs in
      let s' = record s { rbuf = s.rbuf ++ got; last_activity = now; awaiting_pong = false } in
      let more = read_loop reads (total + length got) s' in
      if leb read_quantum (total + length got) then (s', open_end) else more

  -- The end of file closes what is left of the connection.
  unfoldable pub hang_up : World × Bool → World × Bool
  hang_up (w, parked) = elim w.slot [
    | none ↦ (w, parked)
    | some s ↦ (remove (code_or 1006 s.closing) w, parked)
  ]

  unfoldable pub after_read : ConnState × ReadEnd → World → World × Bool
  after_read (s, open_end) w = parse_frames (record w { slot = some s })
  after_read (s, eof) w = hang_up (parse_frames (record w { slot = some s }))
  after_read (s, broken) w = (remove 1006 (record w { slot = some s }), false)

  unfoldable pub handle_readable : List Read → World → World × Bool
  handle_readable reads w = elim w.slot [
    | none ↦ (w, false)
    | some s ↦ after_read (read_loop reads 0 s) w
  ]
