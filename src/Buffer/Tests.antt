-- ===== src/Buffer/Tests.antt =====
-- A run of a buffer of two places for values of two bytes.
use elusiv.Base.{from_elusiv, duplicate_value, ok, err, ◌≡◌, refl, [], ◌∷◌, arith}
use elusiv.Buffer.{RingBuffer, contains, push, push_unless, try_insert}
use elusiv.Buffer.Invariant.{IsValid}
use elusiv.Buffer.Recent.{try_insert_all, try_insert_duplicate}

abbrev fresh_buffer : RingBuffer
fresh_buffer = record { values = (0 ∷ 0 ∷ []) ∷ (0 ∷ 0 ∷ []) ∷ []; count = 0; pointer = 0 }

abbrev buffer_with_value : RingBuffer
buffer_with_value = record { values = (1 ∷ 2 ∷ []) ∷ (0 ∷ 0 ∷ []) ∷ []; count = 1; pointer = 1 }

fresh_buffer-IsValid : IsValid 2 2 fresh_buffer
fresh_buffer-IsValid = record {
  positive = omega arith;
  small = omega arith;
  storage = refl;
  sized = (refl, (refl, tt));
  pointer_in = omega arith;
  count_in = omega arith;
  filling = λ _. refl;
}

accepted_test : try_insert 2 2 fresh_buffer (1 ∷ 2 ∷ []) ≡ (buffer_with_value, ok tt)
unfolding try_insert push_unless contains push
accepted_test = refl

try_insert_duplicate_example :
    let later = try_insert_all 2 2 buffer_with_value ((3 ∷ 4 ∷ []) ∷ []) in
    try_insert 2 2 later (1 ∷ 2 ∷ []) ≡ (later, err (from_elusiv duplicate_value))
try_insert_duplicate_example =
    try_insert_duplicate 2 2 fresh_buffer buffer_with_value (1 ∷ 2 ∷ []) ((3 ∷ 4 ∷ []) ∷ [])
      (omega arith) refl (refl, tt) fresh_buffer-IsValid accepted_test (omega arith)
