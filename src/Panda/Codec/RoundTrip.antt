-- ===== src/Panda/Codec/RoundTrip.antt =====
-- What `panda_can_pack_buffer` writes, `panda_can_unpack_buffer` reads back.
use supercombo_k.Base.{
  ℕ, zero, suc, ◌<◌, ◌==◌, ◌||◌, ◌⊎◌, inl, inr, not, Bool, true, false, leb, ◌≤◌, ◌≡◌, refl, sym,
  ap, ◌∙◌, List, [], ◌∷◌, ◌++◌, none, some, arith, length, length-append, take, All,
}
use supercombo_k.Base.Int.{pos}
use mathlib.Core.List.{append-nil, append_assoc}
use supercombo_k.Panda.Codec.{
  PandaCanFrame, CodecError, null_output, address_range, bus_range, rx_only_flags, bad_data_len,
  null_argument, negative_size, bad_counter, truncated_header, truncated_payload, out_of_fuel,
  len_to_dlc, append_packet_bytes, frame_error, pack_loop, panda_can_pack_buffer,
  panda_can_unpack_buffer, after_strip, parse_frames, packet_header,
}
use supercombo_k.Panda.Codec.Packets.{
  append_packet_bytes-append, strip_counters-append_packet_bytes,
}
use supercombo_k.Panda.Codec.Frames.{IsSendable, packet, parse_frames-packet_lem}

-- The packets one after another, before they are cut for USB.
abbrev pub stream : List PandaCanFrame → List ℕ
stream [] = []
stream (f ∷ fs) = packet f ++ stream fs

abbrev pub IsAccepted : PandaCanFrame → Type 0
IsAccepted f = frame_error f ≡ none

frame_error-IsSendable : (f : PandaCanFrame) → IsSendable f → IsAccepted f
unfolding frame_error
frame_error-IsSendable f s = ground (arith, s.len_known, s.address_fits, s.bus_fits)

pack_loop-stream :
    (good rest : List PandaCanFrame) (out : List ℕ)
    → All IsAccepted good
    → pack_loop (good ++ rest) out ≡ pack_loop rest (append_packet_bytes out (stream good))
unfolding pack_loop append_packet_bytes
pack_loop-stream [] rest out h = refl
pack_loop-stream (f ∷ fs) rest out h =
    rw (h.0, pack_loop)
      (pack_loop-stream fs rest _ h.1
        ∙ ap (pack_loop rest) (
            ap (λ d. append_packet_bytes d (stream fs))
              (sym (append_packet_bytes-append out (packet_header f) (take f.data_len f.payload)))
            ∙ sym (append_packet_bytes-append out (packet f) (stream fs))))

All-map :
    (P Q : PandaCanFrame → Type 0) (fs : List PandaCanFrame)
    → ((f : PandaCanFrame) → P f → Q f)
    → All P fs
    → All Q fs
All-map P Q [] g h = tt
All-map P Q (f ∷ fs) g h = (g f h.0, All-map P Q fs g h.1)

-- The lengths that a frame can have.
abbrev is_length : ℕ → Bool
is_length n = leb n 8 || (n == 12 || n == 16 || n == 20 || n == 24 || n == 32 || n == 48 || n == 64)

-- A frame that may be sent.
pub record IsPackable (f : PandaCanFrame) : Type 0 where
  pub address_fits : f.address ≤ 0x1fffffff
  pub bus_fits : f.bus ≤ 3
  pub not_returned : f.returned ≡ false
  pub not_rejected : f.rejected ≡ false
  pub len_known : is_length f.data_len ≡ true

-- The first rule that a frame breaks, and the error that is due to it.
abbrev pub IsRefused : PandaCanFrame → CodecError → Type 0
IsRefused f address_range = 0x1fffffff < f.address
IsRefused f bus_range = (f.address ≤ 0x1fffffff) × (3 < f.bus)
IsRefused f rx_only_flags =
    (f.address ≤ 0x1fffffff) × (f.bus ≤ 3) × ((f.returned ≡ true) ⊎ (f.rejected ≡ true))
IsRefused f bad_data_len =
    (f.address ≤ 0x1fffffff)
    × (f.bus ≤ 3)
    × (f.returned ≡ false)
    × (f.rejected ≡ false)
    × (is_length f.data_len ≡ false)
IsRefused f null_output = ⊥
IsRefused f null_argument = ⊥
IsRefused f negative_size = ⊥
IsRefused f bad_counter = ⊥
IsRefused f truncated_header = ⊥
IsRefused f truncated_payload = ⊥
IsRefused f out_of_fuel = ⊥

len_to_dlc-is_length : (n : ℕ) → (len_to_dlc n == 0xff) ≡ not (is_length n)
unfolding len_to_dlc
len_to_dlc-is_length n = ground arith

frame_error-IsPackable : (f : PandaCanFrame) → IsPackable f → IsAccepted f
unfolding frame_error
frame_error-IsPackable f p = ground (
  arith,
  p.address_fits,
  p.bus_fits,
  p.not_returned,
  p.not_rejected,
  p.len_known,
  len_to_dlc-is_length f.data_len,
)

frame_error-IsRefused :
    (f : PandaCanFrame) (e : CodecError) → IsRefused f e → frame_error f ≡ some e
unfolding frame_error
frame_error-IsRefused f address_range h = ground arith
frame_error-IsRefused f bus_range (a, h) = ground arith
frame_error-IsRefused f rx_only_flags (a, b, inl h) = ground arith
frame_error-IsRefused f rx_only_flags (a, b, inr h) = ground arith
frame_error-IsRefused f bad_data_len (a, b, c, d, h) =
    ground (arith, len_to_dlc-is_length f.data_len)
frame_error-IsRefused f null_output h = absurd h
frame_error-IsRefused f null_argument h = absurd h
frame_error-IsRefused f negative_size h = absurd h
frame_error-IsRefused f bad_counter h = absurd h
frame_error-IsRefused f truncated_header h = absurd h
frame_error-IsRefused f truncated_payload h = absurd h
frame_error-IsRefused f out_of_fuel h = absurd h

-- If the frames in front may be sent and a frame may not, panda_can_pack_buffer stops at it with the
-- error of the first rule that it breaks: an address above 0x1fffffff, a bus above 3, a frame that is
-- marked as returned or rejected, a length that is not one of 0 to 8, 12, 16, 20, 24, 32, 48 and 64.
-- The packets of the frames in front are in the buffer, and nothing else.
pub pack_loop_refuses :
    (good rest : List PandaCanFrame) (bad : PandaCanFrame) (e : CodecError) (out : List ℕ)
    → All IsPackable good
    → IsRefused bad e
    → panda_can_pack_buffer (good ++ bad ∷ rest) (some out)
      ≡ record { error = some e; out = append_packet_bytes [] (stream good) }
unfolding panda_can_pack_buffer pack_loop
pack_loop_refuses good rest bad e out h b =
    pack_loop-stream good (bad ∷ rest) []
      (All-map IsPackable IsAccepted good frame_error-IsPackable h)
    ∙ rw (frame_error-IsRefused bad e b, pack_loop)

parse_frames-stream :
    (fuel : ℕ) (fs found : List PandaCanFrame)
    → All IsSendable fs
    → length fs ≤ fuel
    → parse_frames fuel (stream fs) found ≡ record { error = none; frames = found ++ fs }
unfolding parse_frames
parse_frames-stream fuel [] found h g =
    ap (λ r. record { error = none; frames = r }) (sym (append-nil found))
parse_frames-stream zero (f ∷ fs) found h g = elim g [ ]
parse_frames-stream (suc fuel) (f ∷ fs) found h g =
    parse_frames-packet_lem f h.0 fuel (stream fs) found
    ∙ parse_frames-stream fuel fs (found ++ f ∷ []) h.1 (omega arith)
    ∙ ap (λ r. record { error = none; frames = r }) (append_assoc found (f ∷ []) fs)

length-stream : (fs : List PandaCanFrame) → length fs ≤ length (stream fs)
unfolding packet_header
length-stream [] = omega arith
length-stream (f ∷ fs) = omega (arith, length-append (packet f) (stream fs), length-stream fs)

take-length : (xs : List ℕ) → take (length xs) xs ≡ xs
take-length [] = refl
take-length (x ∷ xs) = ap (◌∷◌ x) (take-length xs)

-- Sendable frames are all packed, and unpacking the buffer gives the same frames in the same order.
pub unpack-pack :
    (fs fs' : List PandaCanFrame) (out recv : List ℕ)
    → All IsSendable fs
    → let sent = panda_can_pack_buffer fs (some out) in
      (sent.error ≡ none)
      × (panda_can_unpack_buffer (some sent.out) (pos (length sent.out)) (some recv) (some fs')
          ≡ record { error = none; recv_buf = stream fs; frames = fs })
unfolding panda_can_pack_buffer panda_can_unpack_buffer after_strip
unpack-pack fs fs' out recv h =
    let packed : pack_loop fs []
        ≡ record { error = none; out = append_packet_bytes [] (stream fs) } =
      ap (λ l. pack_loop l []) (sym (append-nil fs))
      ∙ pack_loop-stream fs [] [] (All-map IsSendable IsAccepted fs frame_error-IsSendable h) in
    rw packed (
      refl,
      rw
          (
            take-length (append_packet_bytes [] (stream fs)),
            strip_counters-append_packet_bytes (stream fs),
          )
          (rw (parse_frames-stream (length (stream fs)) fs [] h (length-stream fs), after_strip)),
    )
