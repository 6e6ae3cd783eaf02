-- ===== src/Buffer.antt =====
-- elusiv/src/buffer.rs: the trait `RingBuffer` with the account that `buffer_account!` makes of it.
-- The account keeps the serialized values, each of `value_size` bytes, in `capacity` places.
pub mod Invariant
pub mod Recent
mod Tests
use elusiv.Base.{
  ltb, ◌==◌, if◌then◌else◌, length, set, take, from_elusiv, duplicate_value, ProgramError, Result,
  ok, err, panic, u32_mod, ℕ, ◌+◌, ◌%◌, min, Bool, true, false, ◌&&◌, Option, none, List,
}
use elusiv.Bytes
use elusiv.Bytes.Find.{concat}

-- `len` and `ptr` of the source are the fields `length` and `pointer` of the account.
pub record RingBuffer : Type 0 where
  pub values : List (List ℕ)
  pub count : ℕ
  pub pointer : ℕ

module _ (value_size capacity : ℕ) where
  -- Both reads search the bytes of the first `count` places.
  abbrev pub content : RingBuffer → List ℕ
  content b = concat (take b.count b.values)

  pub contains : RingBuffer → List ℕ → Result ProgramError Bool
  contains b value = if b.count == 0 then ok false else Bytes.contains value_size value (content b)

  pub find_position : RingBuffer → List ℕ → Result ProgramError (Option ℕ)
  find_position b value =
      if b.count == 0 then ok none else Bytes.find value_size value (content b) b.count

  -- `set_ptr` and `set_len` narrow to `u32`, and panic where the number does not fit.
  pub push : RingBuffer → List ℕ → RingBuffer × Result ProgramError (Unit {0})
  push b value =
      let ptr = b.pointer % capacity in
      let next = (ptr + 1) % capacity in
      let n = min (b.count + 1) capacity in
      if ltb next u32_mod && ltb ptr (length b.values) && ltb n u32_mod
      then (record b { values = set b.values ptr value; pointer = next; count = n }, ok tt)
      else (b, panic)

  -- What `try_insert` does once it knows whether the value is there.
  pub push_unless :
      Result ProgramError Bool → RingBuffer → List ℕ → RingBuffer × Result ProgramError (Unit {0})
  unfolding push
  push_unless (ok true) b value = (b, err (from_elusiv duplicate_value))
  push_unless (ok false) b value = push b value
  push_unless (err e) b value = (b, err e)
  push_unless panic b value = (b, panic)

  pub try_insert : RingBuffer → List ℕ → RingBuffer × Result ProgramError (Unit {0})
  unfolding contains push_unless
  try_insert b value = push_unless (contains b value) b value
