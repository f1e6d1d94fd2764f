-- ===== src/Util/HashFilter/Tests.antt =====
-- Runs of the hash filter, and its theorems at a concrete one.
use trunk.Prelude.{ℕ, ◌≡◌, refl, [], ◌∷◌, true, false, All, inl, arith}
use trunk.Util.HashFilter.{
  HashFilter, clear, new, fp_32, index_of, add, has_entry, find_two, test, entry_at, put_entry,
  added_or, kick, kick_again, inserted, insert,
}
use trunk.Util.HashFilter.Kept.{test-insert}
use trunk.Util.HashFilter.Filled.{empty, more, Filled-test}

abbrev gen : ℕ → ℕ
gen i = 1

-- A filter of one bucket, with one entry and with four.
abbrev one_entry : HashFilter
one_entry = (insert gen 7 (new 1)).1

abbrev full : HashFilter
full = (insert gen 10 (insert gen 9 (insert gen 8 one_entry).1).1).1

one_inserted : insert gen 7 (new 1) ≡ (true, one_entry)
unfolding insert new clear fp_32 index_of add added_or kick kick_again inserted
one_inserted = refl

-- The fifth insertion fails, and one of the four is not found any more.
fifth_fails : (insert gen 11 full).0 ≡ false
unfolding insert new clear fp_32 index_of add added_or kick kick_again inserted entry_at put_entry
fifth_fails = refl

first_found : test full 7 ≡ true
unfolding insert new clear fp_32 index_of add added_or kick kick_again inserted entry_at put_entry
    test find_two has_entry
first_found = refl

first_lost : test ((insert gen 11 full).1) 7 ≡ false
unfolding insert new clear fp_32 index_of add added_or kick kick_again inserted entry_at put_entry
    test find_two has_entry
first_lost = refl

test-insert_example : test one_entry 7 ≡ true
unfolding new clear
test-insert_example = test-insert 0 gen 7 7 (new 1) one_entry (omega arith) one_inserted (inl refl)

Filled-test_example : (All (λ f. test one_entry f ≡ true) (7 ∷ [])) × (one_entry.size ≡ 1)
Filled-test_example =
    Filled-test 0 (7 ∷ []) one_entry (omega arith)
      (more gen 7 [] (new 1) one_entry empty one_inserted)
