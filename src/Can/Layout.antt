-- ===== src/Can/Layout.antt =====
-- A message is written field by field into one payload. Where no two fields share a bit, each of them
-- is read back, whatever the order of the writes.
use supercombo_k.Base.{
  ℕ, ◌+◌, ◌%◌, ◌^◌, ◌≤◌, ◌≡◌, refl, ◌∙◌, ◌⊎◌, Bool, true, List, [], ◌∷◌, arith, leb, leb→le, ◌&&◌,
  ◌||◌, All, and_true, replicate,
}
use supercombo_k.Can.Signal.{get_signal_le, set_signal_le, IsPayload}
use supercombo_k.Can.Signal.Laws.{
  set_signal_le-IsPayload, get_signal_le-set_signal_le, get_signal_le-set_signal_le_ne,
}

-- One call set_signal_le(data, start, width, raw).
pub record Field : Type 0 where
  pub start : ℕ
  pub width : ℕ
  pub raw : ℕ

-- The calls in order.
unfoldable pub set_fields : List ℕ → List Field → List ℕ
set_fields bytes [] = bytes
set_fields bytes (f ∷ fs) = set_fields (set_signal_le bytes f.start f.width f.raw) fs

abbrev pub apart : Field → Field → Bool
apart f g = leb (f.start + f.width) g.start || leb (g.start + g.width) f.start

abbrev pub apart_from_all : Field → List Field → Bool
apart_from_all f [] = true
apart_from_all f (g ∷ gs) = apart f g && apart_from_all f gs

-- The fields lie in the eight bytes, share no bit, and fit in a word of 32 bits.
abbrev pub is_layout : List Field → Bool
is_layout [] = true
is_layout (f ∷ fs) =
    leb (f.start + f.width) 64 && (apart_from_all f fs && (leb f.width 32 && is_layout fs))

abbrev pub empty_payload : List ℕ
empty_payload = replicate 8 0

-- What a layout says of its first field.
layout_parts :
    (f : Field) (fs : List Field)
    → is_layout (f ∷ fs) ≡ true
    → (f.start + f.width ≤ 64)
      × (apart_from_all f fs ≡ true)
      × (f.width ≤ 32)
      × (is_layout fs ≡ true)
layout_parts f fs l =
    let (fits, rest) = and_true (leb (f.start + f.width) 64) _ l in
    let (distinct, more) = and_true (apart_from_all f fs) _ rest in
    let (narrow, layout) = and_true (leb f.width 32) (is_layout fs) more in
    (leb→le _ _ fits, distinct, leb→le _ _ narrow, layout)

pub set_fields-IsPayload :
    (bytes : List ℕ) (fs : List Field)
    → IsPayload bytes
    → is_layout fs ≡ true
    → IsPayload (set_fields bytes fs)
unfolding set_fields
set_fields-IsPayload bytes [] h l = h
set_fields-IsPayload bytes (f ∷ fs) h l =
    let (fits, distinct, narrow, layout) = layout_parts f fs l in
    set_fields-IsPayload (set_signal_le bytes f.start f.width f.raw) fs
      (set_signal_le-IsPayload bytes f.start f.width f.raw h fits) layout

apart_cases :
    (f g : Field) → apart f g ≡ true → (f.start + f.width ≤ g.start) ⊎ (g.start + g.width ≤ f.start)
apart_cases f g h = ground arith

-- Fields apart from all that are written keep their value.
get_signal_le-set_fields_ne :
    (bytes : List ℕ) (f : Field) (fs : List Field)
    → IsPayload bytes
    → apart_from_all f fs ≡ true
    → is_layout fs ≡ true
    → get_signal_le (set_fields bytes fs) f.start f.width ≡ get_signal_le bytes f.start f.width
unfolding set_fields
get_signal_le-set_fields_ne bytes f [] h a l = refl
get_signal_le-set_fields_ne bytes f (g ∷ gs) h a l =
    let (fits, distinct, narrow, layout) = layout_parts g gs l in
    get_signal_le-set_fields_ne (set_signal_le bytes g.start g.width g.raw) f gs
      (set_signal_le-IsPayload bytes g.start g.width g.raw h fits)
      (and_true (apart f g) (apart_from_all f gs) a).1 layout
    ∙ get_signal_le-set_signal_le_ne bytes g.start g.width g.raw h fits f.start f.width
        (apart_cases f g (and_true (apart f g) (apart_from_all f gs) a).0)

abbrev pub IsRead : List ℕ → Field → Type 0
IsRead bytes f = get_signal_le bytes f.start f.width ≡ f.raw % 2 ^ f.width

-- If fields of at most 32 bits lie in the eight bytes of a payload and no two share a bit, then after
-- they are written one after another get_signal_le reads each of them, cut to its width.
pub set_fields-IsRead :
    (bytes : List ℕ) (fs : List Field)
    → IsPayload bytes
    → is_layout fs ≡ true
    → All (IsRead (set_fields bytes fs)) fs
unfolding set_fields
set_fields-IsRead bytes [] h l = tt
set_fields-IsRead bytes (f ∷ fs) h l =
    let (fits, distinct, narrow, layout) = layout_parts f fs l in
    let next = set_signal_le-IsPayload bytes f.start f.width f.raw h fits in
    (
      get_signal_le-set_fields_ne _ f fs next distinct layout
          ∙ get_signal_le-set_signal_le bytes f.start f.width f.raw h fits narrow,
      set_fields-IsRead (set_signal_le bytes f.start f.width f.raw) fs next layout,
    )
