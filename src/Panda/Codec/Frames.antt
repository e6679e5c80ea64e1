-- ===== src/Panda/Codec/Frames.antt =====
-- One frame: its header and data are read back as the frame that was packed.
use supercombo_k.Base.{
  ℕ, suc, ◌+◌, ◌-◌, ◌*◌, ◌/◌, ◌%◌, ◌^◌, ◌≤◌, ◌<◌, ◌≡◌, ◌≢◌, ◌⊎◌, inl, inr, refl, sym, ap, ◌∙◌,
  false, not, List, [], ◌∷◌, ◌++◌, arith, ltb, leb, ◌==◌, if◌then◌else◌, length, length-append,
  get_or, take, drop, replicate, take-append-drop, length-take, take-append, drop-append,
  le→ltb_false, ==_iff, Bool-cases, All-get_or,
}
use supercombo_k.Panda.Codec.{
  PandaCanFrame, dlc_to_len, len_to_dlc, len_to_dlc_from, write_le32, read_le32, packet_header,
  read_frame, parse_frames, panda_can_max_address, panda_can_max_tx_bus, panda_can_max_data_len,
}

-- A frame that `panda_can_pack_buffer` accepts, with nothing in the array behind its data.
pub record IsSendable (f : PandaCanFrame) : Type 0 where
  pub address_fits : f.address ≤ panda_can_max_address
  pub bus_fits : f.bus ≤ panda_can_max_tx_bus
  pub not_returned : f.returned ≡ false
  pub not_rejected : f.rejected ≡ false
  pub len_known : len_to_dlc f.data_len ≢ 0xff
  pub array : length f.payload ≡ panda_can_max_data_len
  pub rest_zero : drop f.data_len f.payload ≡ replicate (panda_can_max_data_len - f.data_len) 0

len_to_dlc_from-found :
    (ls : List ℕ) (dlc len : ℕ)
    → (len_to_dlc_from ls dlc len ≡ 0xff)
      ⊎ ((dlc ≤ len_to_dlc_from ls dlc len)
          × (len_to_dlc_from ls dlc len < dlc + length ls)
          × (get_or ls (len_to_dlc_from ls dlc len - dlc) 0 ≡ len))
unfolding len_to_dlc_from
len_to_dlc_from-found [] dlc len = inl refl
len_to_dlc_from-found (l ∷ ls) dlc len = elim (Bool-cases (l == len)) [
  | inl same ↦
      let start : dlc - dlc ≡ 0 = omega arith in
      rw same (inr (omega arith, omega arith, rw start ((==_iff l len).0 same)))
  | inr other ↦ rw other (elim (len_to_dlc_from-found ls (dlc + 1) len) [
    | inl none_found ↦ inl none_found
    | inr (low, high, e) ↦
        let next : len_to_dlc_from ls (dlc + 1) len - dlc
            ≡ suc (len_to_dlc_from ls (dlc + 1) len - (dlc + 1)) =
          omega arith in
        inr (omega arith, omega arith, rw next e)
  ])
]

-- A length that has a code is the length that the code stands for.
pub dlc_to_len-len_to_dlc :
    (len : ℕ)
    → len_to_dlc len ≢ 0xff
    → (len_to_dlc len < 16) × (get_or dlc_to_len (len_to_dlc len) 0 ≡ len)
unfolding len_to_dlc
dlc_to_len-len_to_dlc len h = elim (len_to_dlc_from-found dlc_to_len 0 len) [
  | inl none_found ↦ absurd (h none_found)
  | inr (low, high, e) ↦
      let index : len_to_dlc_from dlc_to_len 0 len - 0 ≡ len_to_dlc_from dlc_to_len 0 len =
        omega arith in
      (high, ap (λ k. get_or dlc_to_len k 0) (sym index) ∙ e)
]

read_le32-write_le32 : (w : ℕ) → w < 2 ^ 32 → read_le32 (write_le32 w) ≡ w
unfolding read_le32 write_le32
read_le32-write_le32 w h = omega arith

drop_head : (n a b c d e : ℕ) (xs : List ℕ) → drop (5 + n) (a ∷ b ∷ c ∷ d ∷ e ∷ xs) ≡ drop n xs
drop_head n a b c d e xs =
    let five : 5 + n ≡ suc (suc (suc (suc (suc n)))) = omega arith in
    ap (λ k. drop k (a ∷ b ∷ c ∷ d ∷ e ∷ xs)) five

-- A whole packet at the head of the buffer is taken off as one frame.
parse_frames-packet :
    (fuel n h w0 w1 w2 w3 : ℕ) (body rest : List ℕ) (found : List PandaCanFrame)
    → get_or dlc_to_len (h / 16 % 16) 0 ≡ n
    → length body ≡ n
    → parse_frames (suc fuel) (h ∷ w0 ∷ w1 ∷ w2 ∷ w3 ∷ body ++ rest) found
      ≡ parse_frames fuel rest (found ++ read_frame (h ∷ w0 ∷ w1 ∷ w2 ∷ w3 ∷ body ++ rest) n ∷ [])
unfolding parse_frames
parse_frames-packet fuel n h w0 w1 w2 w3 body rest found e size =
    let total : length (body ++ rest) ≡ n + length rest = omega (arith, length-append body rest) in
    let head : ltb (suc (suc (suc (suc (suc (length (body ++ rest))))))) 5 ≡ false =
      le→ltb_false _ _ (omega arith) in
    let whole : ltb (suc (suc (suc (suc (suc (length (body ++ rest))))))) (5 + n) ≡ false =
      le→ltb_false _ _ (omega arith) in
    rw (e, head, whole)
      (ap
        (λ b.
          parse_frames fuel b (found ++ read_frame (h ∷ w0 ∷ w1 ∷ w2 ∷ w3 ∷ body ++ rest) n ∷ []))
        (drop_head n h w0 w1 w2 w3 (body ++ rest)
          ∙ ap (λ k. drop k (body ++ rest)) (sym size)
          ∙ drop-append body rest))

-- The bytes of a packet.
abbrev pub packet : PandaCanFrame → List ℕ
packet f = packet_header f ++ take f.data_len f.payload

module _ (f : PandaCanFrame) (s : IsSendable f) where
  abbrev dlc : ℕ
  dlc = len_to_dlc f.data_len

  abbrev word : ℕ
  word = f.address * 8 + (if leb 0x800 f.address then 1 else 0) * 4

  abbrev header : ℕ
  header = (dlc * 16 + f.bus * 2) % 256

  word-lt : word < 2 ^ 32
  word-lt = ground (arith, s.address_fits)

  data_len-le : f.data_len ≤ 64
  data_len-le =
      let at_most : get_or dlc_to_len dlc 0 ≤ 64 =
        All-get_or (λ x. x ≤ 64) dlc_to_len dlc 0 (omega arith) (omega arith) in
      omega (arith, (dlc_to_len-len_to_dlc f.data_len s.len_known).1)

  header-dlc : header / 16 % 16 ≡ dlc
  header-dlc = omega (arith, (dlc_to_len-len_to_dlc f.data_len s.len_known).0, s.bus_fits)

  header_bus : header / 2 % 8 ≡ f.bus
  header_bus = omega (arith, (dlc_to_len-len_to_dlc f.data_len s.len_known).0, s.bus_fits)

  word_address : word / 8 ≡ f.address
  word_address = ground arith

  word_flags : (word % 2 ≡ 0) × (word / 2 % 2 ≡ 0)
  word_flags = ground arith

  length-data : length (take f.data_len f.payload) ≡ f.data_len
  length-data = omega (arith, length-take f.data_len f.payload, s.array, data_len-le)

  -- What is read at the head of the buffer is the frame.
  read_frame-packet : (rest : List ℕ) → read_frame (packet f ++ rest) f.data_len ≡ f
  unfolding read_frame packet_header write_le32
  read_frame-packet rest =
      let read : read_le32 (write_le32 word ++ take f.data_len f.payload ++ rest) ≡ word =
        unfold read_le32 write_le32 in read_le32-write_le32 word word-lt in
      let copied : take f.data_len (take f.data_len f.payload ++ rest) ≡ take f.data_len f.payload =
        ap (λ n. take n (take f.data_len f.payload ++ rest)) (sym length-data)
        ∙ take-append (take f.data_len f.payload) rest in
      λ i. record {
        bus = header_bus i;
        address = (ap (λ w. w / 8) read ∙ word_address) i;
        rejected =
            (ap (λ w. not (w % 2 == 0)) read
                ∙ ap (λ b. not (b == 0)) word_flags.0
                ∙ sym s.not_rejected)
              i;
        returned =
            (ap (λ w. not (w / 2 % 2 == 0)) read
                ∙ ap (λ b. not (b == 0)) word_flags.1
                ∙ sym s.not_returned)
              i;
        data_len = f.data_len;
        payload =
            (ap (λ c. c ++ replicate (64 - length c) 0) copied
                ∙ ap (λ n. take f.data_len f.payload ++ replicate (64 - n) 0) length-data
                ∙ ap (◌++◌ (take f.data_len f.payload)) (sym s.rest_zero)
                ∙ take-append-drop f.data_len f.payload)
              i;
      }

  -- Parsing takes the packet off and adds the frame to those found.
  pub parse_frames-packet_lem :
      (fuel : ℕ) (rest : List ℕ) (found : List PandaCanFrame)
      → parse_frames (suc fuel) (packet f ++ rest) found ≡ parse_frames fuel rest (found ++ f ∷ [])
  unfolding packet_header write_le32
  parse_frames-packet_lem fuel rest found =
      parse_frames-packet fuel f.data_len header (word % 256) (word / 256 % 256)
        (word / 65536 % 256) (word / 16777216 % 256) (take f.data_len f.payload) rest found
        (ap (λ d. get_or dlc_to_len d 0) header-dlc
          ∙ (dlc_to_len-len_to_dlc f.data_len s.len_known).1)
        length-data
      ∙ ap (λ g. parse_frames fuel rest (found ++ g ∷ [])) (read_frame-packet rest)
