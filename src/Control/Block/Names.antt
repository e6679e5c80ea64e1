-- ===== src/Control/Block/Names.antt =====
-- The wire names and the reasons stand for each other.
use mathlib.Core.Bool.{false≢true}
use supercombo_k.Base.{
  ◌≡◌, refl, ◌∙◌, true, List, [], ◌∷◌, some, Text, same_text, Bool-cases, inl, inr, ◌⊎◌, ◌≢◌, ◌==◌,
  ==_iff, and_true, ap₂, All,
}
use supercombo_k.Control.Block.{
  BlockReason, BlockReasonRow, block_reasons, row_of, search_rows, block_reason_name,
  block_reason_from_name, no_reason, no_block, not_engaged, controller_disabled, seeds_missing,
  vehicle_state_stale, speed_invalid, door_open, seatbelt_unlatched, esp_disabled, park_brake,
  brake_error, gear_not_drive, mdps_fault, paramsd_invalid, panda_not_ready, panda_controls_off,
  esp_stale, yaw_rate_invalid, stopped, path_invalid, lateral_plan_invalid, lateral_plan_stale,
  control_stale,
}

-- Every reason but Count is found again from its name.
pub block_reason_from_name-block_reason_name :
    (reason : BlockReason)
    → reason ≢ no_reason
    → block_reason_from_name (some (block_reason_name reason)) ≡ reason
unfolding block_reason_from_name search_rows block_reason_name row_of
block_reason_from_name-block_reason_name no_block known = refl
block_reason_from_name-block_reason_name not_engaged known = refl
block_reason_from_name-block_reason_name controller_disabled known = refl
block_reason_from_name-block_reason_name seeds_missing known = refl
block_reason_from_name-block_reason_name vehicle_state_stale known = refl
block_reason_from_name-block_reason_name speed_invalid known = refl
block_reason_from_name-block_reason_name door_open known = refl
block_reason_from_name-block_reason_name seatbelt_unlatched known = refl
block_reason_from_name-block_reason_name esp_disabled known = refl
block_reason_from_name-block_reason_name park_brake known = refl
block_reason_from_name-block_reason_name brake_error known = refl
block_reason_from_name-block_reason_name gear_not_drive known = refl
block_reason_from_name-block_reason_name mdps_fault known = refl
block_reason_from_name-block_reason_name paramsd_invalid known = refl
block_reason_from_name-block_reason_name panda_not_ready known = refl
block_reason_from_name-block_reason_name panda_controls_off known = refl
block_reason_from_name-block_reason_name esp_stale known = refl
block_reason_from_name-block_reason_name yaw_rate_invalid known = refl
block_reason_from_name-block_reason_name stopped known = refl
block_reason_from_name-block_reason_name path_invalid known = refl
block_reason_from_name-block_reason_name lateral_plan_invalid known = refl
block_reason_from_name-block_reason_name lateral_plan_stale known = refl
block_reason_from_name-block_reason_name control_stale known = refl
block_reason_from_name-block_reason_name no_reason known = absurd (known refl)

same_text-eq : (a b : Text) → same_text a b ≡ true → a ≡ b
same_text-eq [] [] e = refl
same_text-eq [] (c ∷ b) e = absurd (false≢true e)
same_text-eq (c ∷ a) [] e = absurd (false≢true e)
same_text-eq (c ∷ a) (d ∷ b) e =
    let (head, tail) = and_true (c == d) (same_text a b) e in
    ap₂ ◌∷◌ ((==_iff c d).0 head) (same_text-eq a b tail)

-- The row that carries a reason in the table is the row of that reason.
abbrev IsRow : BlockReasonRow → Type 0
IsRow r = block_reason_name r.reason ≡ r.name

search_rows-found :
    (rows : List BlockReasonRow) (name : Text)
    → All IsRow rows
    → (search_rows rows name ≡ no_reason) ⊎ (block_reason_name (search_rows rows name) ≡ name)
unfolding search_rows
search_rows-found [] name h = inl refl
search_rows-found (r ∷ rows) name h = elim (Bool-cases (same_text r.name name)) [
  | inl e ↦ rw e (inr (h.0 ∙ same_text-eq r.name name e))
  | inr e ↦ rw e (search_rows-found rows name h.1)
]

block_reasons-IsRow : All IsRow block_reasons
unfolding block_reason_name row_of
block_reasons-IsRow = (
  refl,
  (
    refl,
    (
      refl,
      (
        refl,
        (
          refl,
          (
            refl,
            (
              refl,
              (
                refl,
                (
                  refl,
                  (
                    refl,
                    (
                      refl,
                      (
                        refl,
                        (
                          refl,
                          (
                            refl,
                            (
                              refl,
                              (refl, (refl, (refl, (refl, (refl, (refl, (refl, (refl, tt)))))))),
                            ),
                          ),
                        ),
                      ),
                    ),
                  ),
                ),
              ),
            ),
          ),
        ),
      ),
    ),
  ),
)

-- A name that is not the name of a reason gives Count; otherwise the reason has that name.
pub block_reason_name-block_reason_from_name :
    (name : Text)
    → (block_reason_from_name (some name) ≡ no_reason)
      ⊎ (block_reason_name (block_reason_from_name (some name)) ≡ name)
unfolding block_reason_from_name
block_reason_name-block_reason_from_name name =
    search_rows-found block_reasons name block_reasons-IsRow
