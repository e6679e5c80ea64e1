-- ===== src/Panda/Codec/Tests.antt =====
-- Tests of the packet codec of src/panda_can_codec.cc, and its theorems at concrete frames.
use supercombo_k.Base.{
  ℕ, ◌≡◌, ◌≢◌, refl, false, List, [], ◌∷◌, none, some, arith, length, replicate, All,
}
use supercombo_k.Base.Int.{pos}
use supercombo_k.Panda.Codec.{
  PandaCanFrame, address_range, out_of_fuel, append_packet_bytes, panda_can_pack_buffer,
  panda_can_unpack_buffer, len_to_dlc,
}
use supercombo_k.Panda.Codec.Frames.{IsSendable}
use supercombo_k.Panda.Codec.RoundTrip.{stream, IsPackable, pack_loop_refuses, unpack-pack}
use supercombo_k.Panda.Codec.Received.{IsReceived, unpack_ends, unpack-IsReceived}

-- An extended address and a frame of 12 bytes.
abbrev long_frame : PandaCanFrame
long_frame = record {
  address = 0x18daf110;
  bus = 2;
  data_len = 12;
  payload = 1 ∷ 2 ∷ 3 ∷ 4 ∷ 5 ∷ 6 ∷ 7 ∷ 8 ∷ 9 ∷ 10 ∷ 11 ∷ 12 ∷ replicate 52 0;
  returned = false;
  rejected = false;
}

abbrev lkas_frame : PandaCanFrame
lkas_frame = record long_frame {
  address = 832;
  bus = 0;
  data_len = 8;
  payload = 9 ∷ 9 ∷ 9 ∷ 9 ∷ 9 ∷ 9 ∷ 9 ∷ 9 ∷ replicate 56 0;
}

abbrev bad_frame : PandaCanFrame
bad_frame = record long_frame { address = 0x20000000 }

long_frame-IsSendable : IsSendable long_frame
unfolding len_to_dlc
long_frame-IsSendable = record {
  address_fits = omega arith;
  bus_fits = omega arith;
  not_returned = refl;
  not_rejected = refl;
  len_known = λ e. omega (arith, e);
  array = refl;
  rest_zero = refl;
}

lkas_frame-IsSendable : IsSendable lkas_frame
unfolding len_to_dlc
lkas_frame-IsSendable = record {
  address_fits = omega arith;
  bus_fits = omega arith;
  not_returned = refl;
  not_rejected = refl;
  len_known = λ e. omega (arith, e);
  array = refl;
  rest_zero = refl;
}

unpack-pack_example :
    let fs = long_frame ∷ lkas_frame ∷ [] in
    let sent = panda_can_pack_buffer fs (some (7 ∷ [])) in
    (sent.error ≡ none)
    × (panda_can_unpack_buffer (some sent.out) (pos (length sent.out)) (some []) (some [])
        ≡ record { error = none; recv_buf = stream fs; frames = fs })
unpack-pack_example =
    unpack-pack (long_frame ∷ lkas_frame ∷ []) [] (7 ∷ []) []
      (long_frame-IsSendable, (lkas_frame-IsSendable, tt))

lkas_frame-IsPackable : IsPackable lkas_frame
lkas_frame-IsPackable = record {
  address_fits = omega arith;
  bus_fits = omega arith;
  not_returned = refl;
  not_rejected = refl;
  len_known = refl;
}

pack_loop_refuses_example :
    panda_can_pack_buffer (lkas_frame ∷ bad_frame ∷ long_frame ∷ []) (some [])
    ≡ record { error = some address_range; out = append_packet_bytes [] (stream (lkas_frame ∷ [])) }
pack_loop_refuses_example =
    pack_loop_refuses (lkas_frame ∷ []) (long_frame ∷ []) bad_frame address_range []
      (lkas_frame-IsPackable, tt) (omega arith)

abbrev noise : List ℕ
noise = 0 ∷ 0x80 ∷ 1 ∷ 2 ∷ 3 ∷ 4 ∷ 5 ∷ 6 ∷ 7 ∷ 8 ∷ 9 ∷ 10 ∷ 11 ∷ 12 ∷ []

unpack_ends_example :
    (panda_can_unpack_buffer (some noise) (pos 14) (some []) (some [])).error ≢ some out_of_fuel
unpack_ends_example = unpack_ends noise [] 14 []

unpack-IsReceived_example :
    All IsReceived (panda_can_unpack_buffer (some noise) (pos 14) (some []) (some [])).frames
unpack-IsReceived_example = unpack-IsReceived noise [] 14 [] (omega arith)
