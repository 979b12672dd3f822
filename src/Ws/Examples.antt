-- ===== src/Ws/Examples.antt =====
-- crates/sutegi-ws: the models at concrete inputs.
use sutegi.Base.{
  drop, ℕ, ◌≡◌, ◌≢◌, ◌≤◌, refl, Bool, true, false, none, some, [], ◌∷◌, ◌++◌, Bytes, codes, arith,
  All, IsByte, length, ltb, take, all, zero, suc,
}
use sutegi.Ws.Protocol.{
  close, ok, err, text, is_control, Frame, Mask, unmask, decode_frame, encode_frame, decode_header,
  from_bits, frame_length, decode_rest, decode_payload, mask_of, unmask_words, unmask_rest, mask_at,
  bad_opcode,
}
use sutegi.Ws.Protocol.Masking.{IsKey, mask_bytes, unmask-eq-mask_bytes}
use sutegi.Ws.Protocol.RoundTrip.{decode_frame-to_client}
use sutegi.Ws.Protocol.Sending.{to_client}
use sutegi.Ws.Protocol.Decoding.{decode_frame_bounds, decode_frame-append}
use sutegi.Ws.Close.{is_char_boundary, encode_close, valid_close_code, parse_close}
use sutegi.Ws.Close.Laws.{encode_close_round_trip}
use sutegi.Ws.Conn.{Config, ConnState, World, tick}
use sutegi.Ws.Conn.Receive.{Read, handle_frame, handle_readable, parse_frames}
use sutegi.Ws.Conn.Invariant.{IsValid}
use sutegi.Ws.Conn.Reachable.{Step, Reach, Reach-IsValid}
use sutegi.Ws.Conn.Closing.{handle_frame_closing, parse_frames_after_violation}

abbrev key : Mask
key = record { m0 = 1; m1 = 2; m2 = 3; m3 = 4 }

key-IsKey : IsKey key
key-IsKey = record { k0 = omega arith; k1 = omega arith; k2 = omega arith; k3 = omega arith }

abbrev greeting : Bytes
greeting = codes "Hi"

greeting_bytes : All IsByte greeting
greeting_bytes = (omega arith, (omega arith, tt))

-- The frame as it stands on the wire: 0x81, 0x82, the key and the masked text.
abbrev wire_frame : Bytes
wire_frame = 129 ∷ 130 ∷ 1 ∷ 2 ∷ 3 ∷ 4 ∷ 73 ∷ 107 ∷ []

abbrev greeting_frame : Frame
greeting_frame = record { fin = true; opcode = text; payload = greeting }

decode_wire_frame : decode_frame wire_frame 100 ≡ ok (some (greeting_frame, 8))
unfolding decode_frame decode_header from_bits is_control frame_length decode_rest decode_payload
    mask_of unmask unmask_words unmask_rest mask_at
decode_wire_frame = refl

decode_frame-to_client_example :
    decode_frame (to_client key greeting (encode_frame text greeting true) ++ []) 100
    ≡ ok (some (greeting_frame, length (to_client key greeting (encode_frame text greeting true))))
decode_frame-to_client_example =
    decode_frame-to_client 100 key text greeting [] true key-IsKey greeting_bytes (omega arith)
      (omega arith) (λ c. (refl, omega arith))

decode_frame_bounds_example :
    (8 ≤ 8) × (2 ≤ 100) × (8 ≤ 8) × (8 ≤ 16) × (is_control text ≡ true → (true ≡ true) × (2 ≤ 125))
decode_frame_bounds_example = decode_frame_bounds wire_frame 100 greeting_frame 8 decode_wire_frame

decided : decode_frame wire_frame 100 ≢ ok none
decided e = cc decode_wire_frame

decode_frame-append_example : decode_frame (wire_frame ++ 7 ∷ []) 100 ≡ decode_frame wire_frame 100
decode_frame-append_example = decode_frame-append wire_frame (7 ∷ []) 100 decided

unmask-eq-mask_bytes_example : unmask key greeting ≡ mask_bytes key 0 greeting
unmask-eq-mask_bytes_example = unmask-eq-mask_bytes key greeting key-IsKey greeting_bytes

-- Texts of ASCII characters alone, for `valid_utf8`.
abbrev ascii : Bytes → Bool
ascii s = all (λ c. ltb c 128) s

abbrev config : Config
config = record {
  max_frame = 100;
  max_message = 100;
  ping_interval = 30;
  idle_timeout = 75;
  max_buffered = 1000;
}

abbrev opened : ConnState
opened = record {
  rbuf = [];
  assembly = none;
  out = [];
  out_bytes = 0;
  want_write = false;
  closing = none;
  peer_closed = false;
  last_activity = 0;
  awaiting_pong = false;
}

abbrev start : World
start = record { slot = some opened; delivered = []; closed = []; wire = []; script = [] }

start-IsValid : IsValid config start
start-IsValid = record {
  held = (refl, record { accounted = refl; bounded = omega arith; fits = tt });
  small = tt;
}

-- The greeting arrives, then the keep-alive sweep runs.
abbrev swept : World
swept = tick config 40 (handle_readable ascii config 1 (Read.chunk wire_frame ∷ []) start).0

swept-Reach : Reach ascii config start swept
swept-Reach =
    Reach.next (Reach.next Reach.here (Step.readable 1 (Read.chunk wire_frame ∷ []) start))
      (Step.swept 40 _)

Reach-IsValid_example : IsValid config swept
Reach-IsValid_example = Reach-IsValid ascii config {w = start} {u = swept} start-IsValid swept-Reach

abbrev shutting : ConnState
shutting = record opened { closing = some (5, 1002); rbuf = 131 ∷ 128 ∷ [] }

handle_frame_closing_example :
    (handle_frame ascii config 1 greeting_frame (record start { slot = some shutting })).delivered
    ≡ []
handle_frame_closing_example =
    handle_frame_closing ascii config 1 greeting_frame start shutting {c = (5, 1002)} refl

-- Opcode 3 is none.
violation : decode_frame shutting.rbuf config.max_frame ≡ err bad_opcode
unfolding decode_frame decode_header from_bits
violation = refl

parse_frames_after_violation_example :
    parse_frames ascii config 1
      (record start { slot = some (record shutting { rbuf = shutting.rbuf ++ wire_frame }) })
    ≡ (record start { slot = some (record shutting { rbuf = shutting.rbuf ++ wire_frame }) }, false)
parse_frames_after_violation_example =
    parse_frames_after_violation ascii config 1 start shutting (5, 1002) bad_opcode wire_frame refl
      violation

ascii-take : (s : Bytes) (i : ℕ) → ascii s ≡ true → ascii (take i s) ≡ true
ascii-take [] zero h = refl
ascii-take [] (suc i) h = refl
ascii-take (c ∷ s) zero h = refl
ascii-take (c ∷ s) (suc i) h = ground (arith, ascii-take s i)

code_1000 : valid_close_code 1000 ≡ true
unfolding valid_close_code
code_1000 = refl

encode_close_round_trip_example :
    (f : Frame) × (n cut : ℕ) × (decode_frame
        (to_client key (drop 2 (encode_close 1000 greeting)) (encode_close 1000 greeting))
        125
      ≡ ok (some (f, n)))
    × (f.opcode ≡ close)
    × (parse_close ascii f.payload ≡ ok (1000, take cut greeting))
    × (is_char_boundary greeting cut ≡ true)
    × (cut ≤ 123)
    × ((i : ℕ) → i ≤ 123 → i ≤ 2 → is_char_boundary greeting i ≡ true → i ≤ cut)
encode_close_round_trip_example =
    encode_close_round_trip ascii (λ s i v b. ascii-take s i v) 125 key 1000 greeting key-IsKey
      (omega arith) (omega arith) greeting_bytes code_1000 refl
