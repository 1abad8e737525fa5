-- ===== src/Protocol/Control/Utf8.antt =====
-- control_payload.cpp, `valid_utf8`: the check of an error packet's diagnostic text.
use wiretone.Prelude.{
  ℕ, zero, suc, ◌+◌, ◌*◌, bit_and, Bool, true, false, ◌&&◌, ◌||◌, List, [], ◌∷◌, ltb, leb, ◌==◌,
  ◌!=◌, if◌then◌else◌, length, drop,
}
use mathlib.Core.Option.{Option, none, some}

-- What the first byte of a sequence longer than one says of it.
pub record Lead : Type 0 where
  pub continuation_count : ℕ
  pub code_point : ℕ
  pub minimum_code_point : ℕ

unfoldable pub lead_byte : ℕ → Option Lead
lead_byte first =
    if bit_and first 0xe0 == 0xc0
    then some (record {
      continuation_count = 1;
      code_point = bit_and first 0x1f;
      minimum_code_point = 0x80;
    })
    else if bit_and first 0xf0 == 0xe0
    then some (record {
      continuation_count = 2;
      code_point = bit_and first 0x0f;
      minimum_code_point = 0x800;
    })
    else if bit_and first 0xf8 == 0xf0
    then some (record {
      continuation_count = 3;
      code_point = bit_and first 0x07;
      minimum_code_point = 0x10000;
    })
    else none

-- The loop over the continuation bytes, by the rounds left. `(code_point << 6U) | (next & 0x3FU)`
-- is a sum, since the two parts have no bit in common; the value stays below 2 ^ 21.
unfoldable pub continuations : ℕ → ℕ → List ℕ → Option ℕ
continuations zero code_point bytes = some code_point
continuations (suc left) code_point [] = none
continuations (suc left) code_point (next ∷ bytes) =
    let rest = continuations left (code_point * 64 + bit_and next 0x3f) bytes in
    if bit_and next 0xc0 != 0x80 then none else rest

unfoldable pub out_of_range : ℕ → ℕ → Bool
out_of_range minimum code_point =
    ltb code_point minimum
    || ltb 0x10ffff code_point
    || (leb 0xd800 code_point && leb code_point 0xdfff)

-- The `while` loop, over the bytes from `index` on. Each round consumes a byte at least, so the
-- text's length is enough fuel; on a lack of fuel the text is refused.
unfoldable pub valid_from : ℕ → List ℕ → Bool
unfolding lead_byte continuations out_of_range
valid_from zero [] = true
valid_from zero (_ ∷ _) = false
valid_from (suc fuel) [] = true
valid_from (suc fuel) (first ∷ bytes) =
    let after_one = valid_from fuel bytes in
    if leb first 0x7f then after_one else elim (lead_byte first) [
      | none ↦ false
      | some lead ↦
          let after = valid_from fuel (drop lead.continuation_count bytes) in
          if leb (suc (length bytes)) lead.continuation_count
          then false
          else elim (continuations lead.continuation_count lead.code_point bytes) [
            | none ↦ false
            | some code_point ↦
                if out_of_range lead.minimum_code_point code_point then false else after
          ]
    ]

unfoldable pub valid_utf8 : List ℕ → Bool
unfolding valid_from
valid_utf8 text = valid_from (length text) text
