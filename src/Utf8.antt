-- ===== src/Utf8.antt =====
-- include/llmserve/utf8.h and src/utf8.cpp: the text of a request, released in whole characters.
-- Bytes are numbers, a string is a list of bytes, and `pos` is the part of the list that is left.
pub mod Steps
pub mod Stream
pub mod Output
pub mod Text
mod Tests
use mini_llm_runtime.Base.{
  ℕ, zero, suc, ◌+◌, ◌-◌, Bool, true, false, ◌&&◌, ◌||◌, not, Option, none, some, List, [], ◌∷◌,
  ◌++◌, ltb, leb, ◌==◌, if◌then◌else◌, length, take, drop,
}

-- The number of bytes that the lead byte announces; 0 for a byte that cannot lead.
pub width : ℕ → ℕ
width lead =
    if ltb lead 128
    then 1
    else if leb 194 lead && leb lead 223
    then 2
    else if leb 224 lead && leb lead 239
    then 3
    else if leb 240 lead && leb lead 244
    then 4
    else 0

-- What the inner loop requires of the byte at `pos + i`.
pub follows : ℕ → ℕ → ℕ → Bool
follows lead i byte =
    leb 128 byte
    && leb byte 191
    && (if i == 1
        then not (lead == 224 && ltb byte 160)
          && not (lead == 237 && leb 160 byte)
          && not (lead == 240 && ltb byte 144)
          && not (lead == 244 && leb 144 byte)
        else true)

-- The inner loop from `i` on, with the rounds left of `width`, over the bytes from `pos + i` on.
pub follow_loop : ℕ → ℕ → ℕ → List ℕ → Bool
follow_loop lead i zero bytes = true
follow_loop lead i (suc rounds) [] = true
follow_loop lead i (suc rounds) (byte ∷ bytes) =
    if follows lead i byte then follow_loop lead (i + 1) rounds bytes else false

-- `valid` after the inner loop.
pub is_valid : ℕ → List ℕ → Bool
is_valid lead bytes = not (width lead == 0) && follow_loop lead 1 (width lead - 1) bytes

abbrev pub replacement : List ℕ
replacement = 239 ∷ 191 ∷ 189 ∷ []

-- One round of `drain` at a lead byte and the bytes after it: what it adds to the output and by how
-- much it moves `pos`; `none` is the `break`.
pub drain_step : Bool → ℕ → List ℕ → Option (List ℕ × ℕ)
drain_step final lead bytes =
    let valid = is_valid lead bytes in
    let available = length bytes + 1 in
    if valid && ltb available (width lead) && not final
    then none
    else if not valid || ltb available (width lead)
    then some (replacement, if valid then available else 1)
    else some (take (width lead) (lead ∷ bytes), width lead)

-- The loop of `drain`: its output and the bytes that stay pending. The fuel bounds the rounds, and
-- the number of bytes is enough, since each round moves `pos`.
pub drain_loop : ℕ → Bool → List ℕ → List ℕ × List ℕ
drain_loop zero final bytes = ([], bytes)
drain_loop (suc fuel) final [] = ([], [])
drain_loop (suc fuel) final (lead ∷ bytes) = elim (drain_step final lead bytes) [
  | none ↦ ([], lead ∷ bytes)
  | some (out, moved) ↦
      let (more, left) = drain_loop fuel final (drop moved (lead ∷ bytes)) in (out ++ more, left)
]

pub drain : Bool → List ℕ → List ℕ × List ℕ
drain final pending = drain_loop (length pending) final pending

-- Each takes what is pending, and returns the output and what is pending then.
pub append : List ℕ → List ℕ → List ℕ × List ℕ
append bytes pending = drain false (pending ++ bytes)

pub finish : List ℕ → List ℕ × List ℕ
finish pending = drain true pending
