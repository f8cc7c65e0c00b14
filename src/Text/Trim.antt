-- ===== src/Text/Trim.antt =====
-- src/util/string.cpp: what `trim` takes away.
use samurai.Prelude.{
  ℕ, ◌≡◌, refl, ap, ◌∙◌, Bool, true, false, [], ◌∷◌, ◌++◌, inl, inr, Bool-cases, if◌then◌else◌,
  Bytes,
}
use samurai.Text.{is_space, skip_spaces, drop_spaces, trim}

abbrev pub AllSpaces : Bytes → Type 0
AllSpaces [] = Unit
AllSpaces (c ∷ cs) = (is_space c ≡ true) × AllSpaces cs

abbrev pub starts_with_space : Bytes → Bool
starts_with_space [] = false
starts_with_space (c ∷ cs) = is_space c

abbrev pub ends_with_space : Bytes → Bool
ends_with_space [] = false
ends_with_space (c ∷ []) = is_space c
ends_with_space (c ∷ d ∷ ds) = ends_with_space (d ∷ ds)

record Front (text rest : Bytes) : Type 0 where
  pub spaces : Bytes
  pub all_spaces : AllSpaces spaces
  pub whole : spaces ++ rest ≡ text
  pub start : starts_with_space rest ≡ false

record Back (text rest : Bytes) : Type 0 where
  pub spaces : Bytes
  pub all_spaces : AllSpaces spaces
  pub whole : rest ++ spaces ≡ text
  pub end : ends_with_space rest ≡ false

skip_spaces-Front : (text : Bytes) → Front text (skip_spaces text)
unfolding skip_spaces
skip_spaces-Front [] = record { spaces = []; all_spaces = tt; whole = refl; start = refl }
skip_spaces-Front (c ∷ cs) = elim (Bool-cases (is_space c)) [
  | inl space ↦
      let rest = skip_spaces-Front cs in
      rw (space, skip_spaces)
        (record {
          spaces = c ∷ rest.spaces;
          all_spaces = (space, rest.all_spaces);
          whole = ap (◌∷◌ c) rest.whole;
          start = rest.start;
        })
  | inr other ↦
      rw (other, skip_spaces) (record { spaces = []; all_spaces = tt; whole = refl; start = other })
]

drop_spaces-next :
    (c : ℕ) (cs kept : Bytes)
    → Back cs kept
    → Back (c ∷ cs) (elim kept [ [] ↦ if is_space c then [] else c ∷ [] | d ∷ ds ↦ c ∷ d ∷ ds ])
drop_spaces-next c cs [] b = elim (Bool-cases (is_space c)) [
  | inl space ↦ rw space (record {
    spaces = c ∷ b.spaces;
    all_spaces = (space, b.all_spaces);
    whole = ap (◌∷◌ c) b.whole;
    end = refl;
  })
  | inr other ↦ rw other (record {
    spaces = b.spaces;
    all_spaces = b.all_spaces;
    whole = ap (◌∷◌ c) b.whole;
    end = other;
  })
]
drop_spaces-next c cs (d ∷ ds) b = record {
  spaces = b.spaces;
  all_spaces = b.all_spaces;
  whole = ap (◌∷◌ c) b.whole;
  end = b.end;
}

drop_spaces-Back : (text : Bytes) → Back text (drop_spaces text)
unfolding drop_spaces
drop_spaces-Back [] = record { spaces = []; all_spaces = tt; whole = refl; end = refl }
drop_spaces-Back (c ∷ cs) = drop_spaces-next c cs (drop_spaces cs) (drop_spaces-Back cs)

kept_start :
    (kept spaces : Bytes)
    → starts_with_space (kept ++ spaces) ≡ false
    → starts_with_space kept ≡ false
kept_start [] spaces h = refl
kept_start (c ∷ cs) spaces h = h

pub record Trims (text rest : Bytes) : Type 0 where
  pub before : Bytes
  pub after : Bytes
  pub spaces_before : AllSpaces before
  pub spaces_after : AllSpaces after
  pub whole : before ++ (rest ++ after) ≡ text
  pub start : starts_with_space rest ≡ false
  pub end : ends_with_space rest ≡ false

-- `trim` removes white space, and only white space, from the front and from the back of a text, and
-- what it leaves neither starts nor ends with white space.
pub trim-Trims : (text : Bytes) → Trims text (trim text)
unfolding trim
trim-Trims text =
    let front = skip_spaces-Front text in
    let back = drop_spaces-Back (skip_spaces text) in
    record {
      before = front.spaces;
      after = back.spaces;
      spaces_before = front.all_spaces;
      spaces_after = back.all_spaces;
      whole = ap (λ (t : Bytes). front.spaces ++ t) back.whole ∙ front.whole;
      start =
          kept_start (drop_spaces (skip_spaces text)) back.spaces
            (ap starts_with_space back.whole ∙ front.start);
      end = back.end;
    }
