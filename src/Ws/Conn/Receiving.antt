-- ===== src/Ws/Conn/Receiving.antt =====
-- crates/sutegi-ws/src/reactor.rs: the invariant under the handling of frames.
use sutegi.Base.{
  ℕ, ◌+◌, ◌≤◌, ◌≡◌, arith, Bool, true, false, Option, none, some, [], ◌++◌, Bytes, ltb, length,
  length-append, All, All-append, if_rule, option_rule, drop,
}
use sutegi.Ws.Protocol.{
  Result, ok, err, Opcode, continuation, text, close, ping, pong, Frame, ProtocolError, too_big,
  bad_fragmentation, bad_utf8, encode_frame,
}
use sutegi.Ws.Close.{encode_close, parse_close}
use sutegi.Ws.Conn.{Config, ConnState, World, protocol_error}
use sutegi.Ws.Conn.Receive.{
  deliver, peer_close, data_frame, continue_frame, dispatch, handle_frame, drain,
}
use sutegi.Ws.Conn.Invariant.{
  limit, Fits, IsGood, IsValid, by_slot, remove_live-IsValid, enqueue-IsValid,
  protocol_error-IsValid,
}

module _ (valid_utf8 : Bytes → Bool) (cfg : Config) (now : ℕ) where
  deliver-IsValid :
      (op : Opcode) (payload : Bytes) (w : World)
      → length payload ≤ limit cfg
      → IsValid cfg w
      → IsValid cfg (deliver valid_utf8 cfg now op payload w)
  unfolding deliver
  deliver-IsValid text payload w h v =
      if_rule (IsValid cfg) (valid_utf8 payload) _ _
        (λ _. record { held = v.held; small = All-append _ w.delivered _ v.small (h, tt) })
        (λ _. protocol_error-IsValid cfg now bad_utf8 w v)
  deliver-IsValid _ payload w h v = record {
    held = v.held;
    small = All-append _ w.delivered _ v.small (h, tt);
  }

  live-IsValid :
      (w : World) (s : ConnState)
      → w.closed ≡ []
      → IsGood cfg s
      → All (λ m. length m.body ≤ limit cfg) w.delivered
      → IsValid cfg (record w { slot = some s })
  live-IsValid w s c g d = record { held = (c, g); small = d }

  module _ (f : Frame) (small_frame : length f.payload ≤ cfg.max_frame) (w : World) (s : ConnState)
      (c : w.closed ≡ []) (g : IsGood cfg s)
      (d : All (λ m. length m.body ≤ limit cfg) w.delivered) where
    abbrev live : World
    live = record w { slot = some s }

    with_assembly :
        (a : Option (Opcode × Bytes))
        → Fits cfg a
        → IsValid cfg (record live { slot = some (record s { assembly = a }) })
    with_assembly a h =
        live-IsValid w (record s { assembly = a }) c
          (record { accounted = g.accounted; bounded = g.bounded; fits = h }) d

    data_frame-IsValid : IsValid cfg (data_frame valid_utf8 cfg now f s live)
    unfolding data_frame
    data_frame-IsValid =
        option_rule (IsValid cfg) s.assembly _ _
          (λ _.
            if_rule (IsValid cfg) f.fin _ _
              (λ _. deliver-IsValid f.opcode f.payload live (omega arith) (live-IsValid w s c g d))
              (λ _. with_assembly (some (f.opcode, f.payload)) (omega arith)))
          (λ a e. protocol_error-IsValid cfg now bad_fragmentation live (live-IsValid w s c g d))

    continue_frame-IsValid : IsValid cfg (continue_frame valid_utf8 cfg now f s live)
    unfolding continue_frame
    continue_frame-IsValid =
        option_rule (IsValid cfg) s.assembly _ _
          (λ _. protocol_error-IsValid cfg now bad_fragmentation live (live-IsValid w s c g d))
          (λ a e.
            if_rule (IsValid cfg) (ltb cfg.max_message (length a.1 + length f.payload)) _ _
              (λ _. protocol_error-IsValid cfg now too_big _ (with_assembly none tt))
              (λ fits.
                let joined : length (a.1 ++ f.payload) ≤ limit cfg =
                  ground (arith, length-append a.1 f.payload) in
                if_rule (IsValid cfg) f.fin _ _
                  (λ _. deliver-IsValid a.0 (a.1 ++ f.payload) _ joined (with_assembly none tt))
                  (λ _. with_assembly (some (a.0, a.1 ++ f.payload)) joined)))

    peer_close-IsValid : (code : ℕ) → IsValid cfg (peer_close valid_utf8 cfg now code s live)
    unfolding peer_close
    peer_close-IsValid code =
        option_rule (IsValid cfg) s.closing _ _
          (λ _. enqueue-IsValid cfg (encode_close code []) _ (
            live-IsValid w _ c
              (record { accounted = g.accounted; bounded = g.bounded; fits = g.fits }) d))
          (λ a e. remove_live-IsValid cfg code w s c d)

    dispatch-IsValid : (op : Opcode) → IsValid cfg (dispatch valid_utf8 cfg now op f s live)
    unfolding dispatch
    dispatch-IsValid ping =
        enqueue-IsValid cfg (encode_frame pong f.payload true) live (live-IsValid w s c g d)
    dispatch-IsValid pong =
        live-IsValid w (record s { awaiting_pong = false }) c
          (record { accounted = g.accounted; bounded = g.bounded; fits = g.fits }) d
    dispatch-IsValid close = by_parse (parse_close valid_utf8 f.payload)
      where
        by_parse :
            (r : Result ProtocolError (ℕ × Bytes))
            → IsValid cfg (elim r [
              | err e ↦ protocol_error cfg now e live
              | ok (code, _) ↦ peer_close valid_utf8 cfg now code s live
            ])
        by_parse (err e) = protocol_error-IsValid cfg now e live (live-IsValid w s c g d)
        by_parse (ok (code, _)) = peer_close-IsValid code
    dispatch-IsValid continuation =
        option_rule (IsValid cfg) s.closing _ _ (λ _. continue_frame-IsValid)
          (λ a e. live-IsValid w s c g d)
    dispatch-IsValid _ =
        option_rule (IsValid cfg) s.closing _ _ (λ _. data_frame-IsValid)
          (λ a e. live-IsValid w s c g d)

  -- One frame of at most `max_frame` bytes.
  pub handle_frame-IsValid :
      (f : Frame) (w : World)
      → length f.payload ≤ cfg.max_frame
      → IsValid cfg w
      → IsValid cfg (handle_frame valid_utf8 cfg now f w)
  unfolding handle_frame
  handle_frame-IsValid f w h =
      by_slot cfg (λ w. IsValid cfg (handle_frame valid_utf8 cfg now f w)) (λ w v. v)
        (λ w s c g d. dispatch-IsValid f h w s c g d f.opcode) w

  pub drain-IsValid :
      (n : ℕ) (w : World) → IsValid cfg w → IsValid cfg (drain valid_utf8 cfg now n w)
  unfolding drain
  drain-IsValid n =
      by_slot cfg (λ w. IsValid cfg (drain valid_utf8 cfg now n w)) (λ w v. v)
        (λ w s c g d.
          live-IsValid w (record s { rbuf = drop n s.rbuf }) c
            (record { accounted = g.accounted; bounded = g.bounded; fits = g.fits }) d)
