-- ===== src/Ws/Conn/Closing.antt =====
-- crates/sutegi-ws/src/reactor.rs: what a connection still does after a close frame went out.
use sutegi.Base.{
  ℕ, suc, ◌+◌, ◌-◌, ◌≡◌, refl, ap, ◌∙◌, min, Bool, true, false, some, List, [], ◌∷◌, ◌++◌, Bytes,
  ltb, length, if_rule, option_rule,
}
use sutegi.Ws.Protocol.{
  Result, ok, err, Opcode, continuation, close, ping, pong, Frame, ProtocolError, decode_frame,
  encode_frame,
}
use sutegi.Ws.Protocol.Decoding.{decode_frame-append}
use sutegi.Ws.Close.{parse_close}
use sutegi.Ws.Conn.{
  Config, ConnState, OutBuf, Write, wrote, would_block, interrupted, failed, Msg, World, code_or,
  remove, drained, advance, flush_loop, flush_out, enqueue, begin_close, protocol_error,
}
use sutegi.Ws.Conn.Receive.{peer_close, dispatch, handle_frame, parse_loop, parse_frames}

module _ (d : List Msg) where
  abbrev Same : World → Type 0
  Same w = w.delivered ≡ d

  remove-Same : (code : ℕ) (w : World) → Same w → Same (remove code w)
  unfolding remove
  remove-Same code w h = option_rule Same w.slot _ _ (λ _. h) (λ a e. h)

  flush_loop-Same :
      (script : List Write) (out : List OutBuf) (s : ConnState) (w : World)
      → Same w
      → Same (flush_loop script out s w)
  unfolding flush_loop
  flush_loop-Same script [] s w h =
      unfold drained in
      if_rule Same s.peer_closed _ _ (λ _. remove-Same (code_or 1000 s.closing) _ h) (λ _. h)
  flush_loop-Same [] (front ∷ rest) s w h = h
  flush_loop-Same (would_block ∷ script) (front ∷ rest) s w h = h
  flush_loop-Same (interrupted ∷ script) (front ∷ rest) s w h =
      flush_loop-Same script (front ∷ rest) s w h
  flush_loop-Same (failed ∷ script) (front ∷ rest) s w h = remove-Same 1006 _ h
  flush_loop-Same (wrote n ∷ script) (front ∷ rest) s w h =
      let s' = advance s front rest (min n (length front.buf - front.pos)) in
      flush_loop-Same script s'.out s' _ h

  flush_out-Same : (w : World) → Same w → Same (flush_out w)
  unfolding flush_out
  flush_out-Same w h =
      option_rule Same w.slot _ _ (λ _. h) (λ s e. flush_loop-Same w.script s.out s w h)

  enqueue-Same : (cfg : Config) (buf : Bytes) (w : World) → Same w → Same (enqueue cfg buf w)
  unfolding enqueue
  enqueue-Same cfg buf w h =
      option_rule Same w.slot _ _ (λ _. h)
        (λ s e.
          if_rule Same (ltb cfg.max_buffered (s.out_bytes + length buf)) _ _
            (λ _. remove-Same 1006 _ h) (λ _. flush_out-Same _ h))

module _ (valid_utf8 : Bytes → Bool) (cfg : Config) (now : ℕ) where
  protocol_error_closing :
      (e : ProtocolError) (w : World) (s : ConnState) {c : ℕ × ℕ}
      → s.closing ≡ some c
      → protocol_error cfg now e (record w { slot = some s }) ≡ record w { slot = some s }
  unfolding protocol_error begin_close
  protocol_error_closing e w s h =
      option_rule (λ u. u ≡ record w { slot = some s }) s.closing _ _ (λ n. cc) (λ a m. refl)

  dispatch_closing :
      (op : Opcode) (f : Frame) (w : World) (s : ConnState) {c : ℕ × ℕ}
      → s.closing ≡ some c
      → (dispatch valid_utf8 cfg now op f s (record w { slot = some s })).delivered ≡ w.delivered
  unfolding dispatch
  dispatch_closing ping f w s h =
      enqueue-Same w.delivered cfg (encode_frame pong f.payload true) _ refl
  dispatch_closing pong f w s h = refl
  dispatch_closing close f w s h = by_parse (parse_close valid_utf8 f.payload)
    where
      live : World
      live = record w { slot = some s }

      by_parse :
          (r : Result ProtocolError (ℕ × Bytes))
          → Same w.delivered (elim r [
            | err e ↦ protocol_error cfg now e live
            | ok (code, _) ↦ peer_close valid_utf8 cfg now code s live
          ])
      by_parse (err e) = ap (λ (u : World). u.delivered) (protocol_error_closing e w s h)
      by_parse (ok (code, _)) =
          unfold peer_close in
          option_rule (Same w.delivered) s.closing _ _ (λ n. cc)
            (λ a m. remove-Same w.delivered code live refl)
  dispatch_closing continuation f w s h =
      option_rule (Same w.delivered) s.closing _ _ (λ n. cc) (λ a m. refl)
  dispatch_closing _ f w s h = option_rule (Same w.delivered) s.closing _ _ (λ n. cc) (λ a m. refl)

  -- A frame that arrives while the connection is closing delivers nothing to the handler.
  pub handle_frame_closing :
      (f : Frame) (w : World) (s : ConnState) {c : ℕ × ℕ}
      → s.closing ≡ some c
      → (handle_frame valid_utf8 cfg now f (record w { slot = some s })).delivered ≡ w.delivered
  unfolding handle_frame
  handle_frame_closing f w s h = dispatch_closing f.opcode f w s h

  parse_loop_violation :
      (budget : ℕ) (w : World) (s : ConnState) {c : ℕ × ℕ} (e : ProtocolError)
      → s.closing ≡ some c
      → decode_frame s.rbuf cfg.max_frame ≡ err e
      → parse_loop valid_utf8 cfg now (suc budget) 0 (record w { slot = some s })
        ≡ (record w { slot = some s }, false)
  unfolding parse_loop
  parse_loop_violation budget w s e h bad =
      rw (bad, parse_loop) (ap (λ (u : World). (u, false)) (protocol_error_closing e w s h))

  -- Once the first frame in the buffer violates the protocol and the connection is closing, parsing
  -- changes nothing any more, whatever bytes the peer adds: its own close frame is never read.
  pub parse_frames_after_violation :
      (w : World) (s : ConnState) (c : ℕ × ℕ) (e : ProtocolError) (more : Bytes)
      → s.closing ≡ some c
      → decode_frame s.rbuf cfg.max_frame ≡ err e
      → parse_frames valid_utf8 cfg now
          (record w { slot = some (record s { rbuf = s.rbuf ++ more }) })
        ≡ (record w { slot = some (record s { rbuf = s.rbuf ++ more }) }, false)
  unfolding parse_frames
  parse_frames_after_violation w s c e more h bad =
      parse_loop_violation 255 w (record s { rbuf = s.rbuf ++ more }) e h
        (decode_frame-append s.rbuf more cfg.max_frame (λ n. cc) ∙ bad)
