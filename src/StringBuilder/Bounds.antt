-- ===== src/StringBuilder/Bounds.antt =====
-- When `StringBuilderAppend` stays inside its buffer.
use arrow_adbc.Base.{
  ℕ, ◌+◌, ◌-◌, ◌<◌, ◌≤◌, ◌≡◌, ◌∙◌, false, List, [], ◌∷◌, ◌++◌, append_assoc, append-nil, length,
  length-append, ltb, lt→ltb, ltb→lt, Bool-cases, inl, inr, le→ltb_false, ◌==◌, if◌then◌else◌,
  arith,
}
use arrow_adbc.Adbc.{done, fault}
use arrow_adbc.StringBuilder.{StringBuilder, string_builder_append, append_all}

-- The bytes of some values together.
abbrev pub concat : List (List ℕ) → List ℕ
concat [] = []
concat (value ∷ values) = value ++ concat values

pub string_builder_append-fits :
    (b : StringBuilder) (value : List ℕ)
    → length b.chars + length value < b.capacity
    → string_builder_append b value
      ≡ done (record { chars = b.chars ++ value; capacity = b.capacity })
unfolding string_builder_append
string_builder_append-fits b value room =
    let stays = le→ltb_false b.capacity (length b.chars + length value) (omega arith) in
    let inside = lt→ltb (length b.chars + length value) b.capacity room in rw (stays, inside)

too_small :
    (size more capacity : ℕ)
    → 0 < capacity
    → capacity ≤ size + more
    → (if ltb capacity (size + more)
        then (if size == 0 then size + more - capacity + 1 else size + more - capacity)
        else capacity)
      ≤ size + more
too_small size more capacity some_room over = ground arith

pub string_builder_append-overflow :
    (b : StringBuilder) (value : List ℕ)
    → 0 < b.capacity
    → b.capacity ≤ length b.chars + length value
    → string_builder_append b value ≡ fault
unfolding string_builder_append
string_builder_append-overflow b value some_room over =
    let outside =
      le→ltb_false (length b.chars + length value) _
        (too_small (length b.chars) (length value) b.capacity some_room over) in
    rw outside

-- Values appended to a builder are there, in order, behind what it had, and the buffer is not
-- reallocated, as long as they all fit with a byte to spare.
pub append_all-fits :
    (values : List (List ℕ)) (b : StringBuilder)
    → length b.chars + length (concat values) < b.capacity
    → append_all values b
      ≡ done (record { chars = b.chars ++ concat values; capacity = b.capacity })
unfolding append_all
append_all-fits [] b room = rw append-nil
append_all-fits (value ∷ values) b room =
    let both = length-append value (concat values) in
    rw (string_builder_append-fits b value (omega (arith, both))) (
      append_all-fits values (record { chars = b.chars ++ value; capacity = b.capacity })
        (omega (arith, both, length-append b.chars value))
      ∙ rw append_assoc)

-- Values that do not all fit are written past the end of the buffer.
pub append_all-overflow :
    (values : List (List ℕ)) (b : StringBuilder)
    → length b.chars < b.capacity
    → b.capacity ≤ length b.chars + length (concat values)
    → append_all values b ≡ fault
unfolding append_all
append_all-overflow [] b fits over = absurd (omega arith)
append_all-overflow (value ∷ values) b fits over =
    let both = length-append value (concat values) in
    elim (Bool-cases (ltb (length b.chars + length value) b.capacity)) [
      | inl room ↦
          let inside = ltb→lt (length b.chars + length value) b.capacity room in
          rw (string_builder_append-fits b value inside) (
            append_all-overflow values (record { chars = b.chars ++ value; capacity = b.capacity })
              (omega (arith, length-append b.chars value))
              (omega (arith, both, length-append b.chars value)))
      | inr full ↦ rw (
          string_builder_append-overflow b value (omega arith)
            (ltb_false→le (length b.chars + length value) b.capacity full))
    ]
  where
    ltb_false→le : (n m : ℕ) → ltb n m ≡ false → m ≤ n
    ltb_false→le n m e = ground arith
