-- ===== src/Queues/Offsets.antt =====
-- projection_offset_repository.go: how far a projection has read the events of a market.
use crosschainswap.Prelude.{
  ℕ, ◌≤◌, ◌≡◌, refl, arith, Bool, ◌&&◌, ◌||◌, List, [], ◌∷◌, Option, none, some, ltb, ◌==◌, ◌!=◌,
  if◌then◌else◌, Result, ok, err, Bool-cases, inl, inr,
}

-- `ProjectionOffset`
pub record Offset : Type 0 where
  pub projection : ℕ
  pub market : ℕ
  pub stream : ℕ
  pub last_sequence : ℕ
  pub last_event_id : ℕ
  pub last_event_hash : ℕ
  pub last_event_at : ℕ
  pub updated_at : ℕ
  pub last_advanced_at : ℕ

pub data OffsetError : Type 0 where
  key_required event_conflict hash_conflict : OffsetError

abbrev pub has_offset_key : ℕ → ℕ → Offset → Bool
has_offset_key projection market o = o.projection == projection && o.market == market

-- `GetProjectionOffset`, without its test for empty keys.
unfoldable pub find_offset : ℕ → ℕ → List Offset → Option Offset
find_offset projection market [] = none
find_offset projection market (o ∷ os) =
    if has_offset_key projection market o then some o else find_offset projection market os

unfoldable pub save_offset : Offset → List Offset → List Offset
save_offset item [] = item ∷ []
save_offset item (o ∷ os) =
    if has_offset_key item.projection item.market o then item ∷ os else o ∷ save_offset item os

-- Two texts that are both given and differ.
abbrev pub disagree : ℕ → ℕ → Bool
disagree a b = a != 0 && b != 0 && a != b

abbrev pub with_stream : Offset → Offset
with_stream item = if item.stream == 0 then record item { stream = item.market } else item

abbrev pub advanced : ℕ → Offset → Offset
advanced now item = record item { updated_at = now; last_advanced_at = now }

-- What is done, given the row that is kept for the projection and the market.
unfoldable pub advance_from :
    ℕ → Offset → List Offset → Option Offset → Result OffsetError (Offset × List Offset)
advance_from now item rows none = ok (advanced now item, save_offset (advanced now item) rows)
advance_from now item rows (some old) =
    if ltb item.last_sequence old.last_sequence
    then ok (old, rows)
    else if item.last_sequence == old.last_sequence
    then if disagree old.last_event_id item.last_event_id
      then err OffsetError.event_conflict
      else if disagree old.last_event_hash item.last_event_hash
      then err OffsetError.hash_conflict
      else ok (old, rows)
    else ok (advanced now item, save_offset (advanced now item) rows)

-- `AdvanceProjectionOffset`
unfoldable pub advance_projection_offset :
    ℕ → Offset → List Offset → Result OffsetError (Offset × List Offset)
unfolding advance_from
advance_projection_offset now given rows =
    let item = with_stream given in
    if item.projection == 0 || item.market == 0
    then err OffsetError.key_required
    else advance_from now item rows (find_offset item.projection item.market rows)

-- How far a projection has come in a market, 0 being not at all.
abbrev pub sequence_of : Option Offset → ℕ
sequence_of none = 0
sequence_of (some o) = o.last_sequence

abbrev kept_rows : List Offset → Result OffsetError (Offset × List Offset) → List Offset
kept_rows rows (ok (o, rows')) = rows'
kept_rows rows (err e) = rows

-- Offsets that are advanced one after the other, at their times; an error changes nothing.
unfoldable pub advance_all : List (ℕ × Offset) → List Offset → List Offset
advance_all [] rows = rows
advance_all ((now, item) ∷ items) rows =
    advance_all items (kept_rows rows (advance_projection_offset now item rows))

find_offset-save :
    (p m : ℕ) (item : Offset) (rows : List Offset)
    → find_offset p m (save_offset item rows)
      ≡ (if has_offset_key p m item then some item else find_offset p m rows)
unfolding find_offset save_offset
find_offset-save p m item [] = refl
find_offset-save p m item (o ∷ rows) = ground (arith, find_offset-save p m item rows)

module _ (p m : ℕ) where
  saved-rises :
      (item : Offset) (rows : List Offset)
      → sequence_of (find_offset item.projection item.market rows) ≤ item.last_sequence
      → sequence_of (find_offset p m rows) ≤ sequence_of (find_offset p m (save_offset item rows))
  saved-rises item rows h = elim (Bool-cases (has_offset_key p m item)) [
    | inl e ↦
        let projection : item.projection ≡ p = ground arith in
        let market : item.market ≡ m = ground arith in
        rw (find_offset-save p m item rows, e) (rw (projection, market) at h)
    | inr e ↦ rw (find_offset-save p m item rows, e) (omega arith)
  ]

  advance_from-rises :
      (now : ℕ) (item : Offset) (rows : List Offset) (old : Option Offset)
      → find_offset item.projection item.market rows ≡ old
      → sequence_of (find_offset p m rows)
        ≤ sequence_of (find_offset p m (kept_rows rows (advance_from now item rows old)))
  unfolding advance_from
  advance_from-rises now item rows none e =
      saved-rises (advanced now item) rows (rw e (omega arith))
  advance_from-rises now item rows (some old) e =
      elim (Bool-cases (ltb item.last_sequence old.last_sequence)) [
        | inl behind ↦ rw behind (omega arith)
        | inr reached ↦ elim (Bool-cases (item.last_sequence == old.last_sequence)) [
          | inr ahead ↦
              rw (reached, ahead) (saved-rises (advanced now item) rows (rw e (ground arith)))
          | inl there ↦ elim (Bool-cases (disagree old.last_event_id item.last_event_id)) [
            | inl clash ↦ rw (reached, there, clash) (omega arith)
            | inr same_event ↦
                elim (Bool-cases (disagree old.last_event_hash item.last_event_hash)) [
                  | inl clash ↦ rw (reached, there, same_event, clash) (omega arith)
                  | inr same_hash ↦ rw (reached, there, same_event, same_hash) (omega arith)
                ]
          ]
        ]
      ]

  advance-rises :
      (now : ℕ) (given : Offset) (rows : List Offset)
      → sequence_of (find_offset p m rows)
        ≤ sequence_of (find_offset p m (kept_rows rows (advance_projection_offset now given rows)))
  unfolding advance_projection_offset
  advance-rises now given rows =
      let item = with_stream given in
      elim (Bool-cases (item.projection == 0 || item.market == 0)) [
        | inl e ↦ rw e (omega arith)
        | inr e ↦ rw e (advance_from-rises now item rows _ refl)
      ]

  -- No projection ever falls back in any market, whatever offsets are advanced, in whatever order
  -- and whether or not they are refused.
  pub advance_all-rises :
      (items : List (ℕ × Offset)) (rows : List Offset)
      → sequence_of (find_offset p m rows) ≤ sequence_of (find_offset p m (advance_all items rows))
  unfolding advance_all
  advance_all-rises [] rows = omega arith
  advance_all-rises ((now, item) ∷ items) rows =
      let first = advance-rises now item rows in
      let rest =
        advance_all-rises items (kept_rows rows (advance_projection_offset now item rows)) in
      omega (arith, first, rest)
