-- ===== src/Conversations/Distinct.antt =====
-- Counting what differs, as `distinct_conversations` of src/client.rs does.
use thalovant_rust_sdk.Prelude.{
  ℕ, suc, ◌≤◌, true, false, List, [], ◌∷◌, length, ◌==◌, ◌≡◌, sym, subst, arith, All, if◌then◌else◌,
  Bool-cases, inl, inr,
}
use thalovant_rust_sdk.Conversations.{contains_number, distinct}

abbrev pub AllIn : List ℕ → List ℕ → Type 0
AllIn l ns = All (λ n. contains_number n l ≡ true) ns

abbrev AllDiffer : List ℕ → Type 0
AllDiffer [] = Unit
AllDiffer (n ∷ ns) = (contains_number n ns ≡ false) × AllDiffer ns

without : ℕ → List ℕ → List ℕ
without n [] = []
without n (k ∷ ks) = let rest = without n ks in if k == n then ks else k ∷ rest

length-without :
    (n : ℕ) (l : List ℕ) → contains_number n l ≡ true → suc (length (without n l)) ≡ length l
unfolding contains_number without
length-without n [] h = absurd (cc)
length-without n (k ∷ ks) h = ground (arith, h, length-without n ks)

contains-without :
    (m n : ℕ) (l : List ℕ)
    → (n == m) ≡ false
    → contains_number m l ≡ true
    → contains_number m (without n l) ≡ true
unfolding contains_number without
contains-without m n [] d h = h
contains-without m n (k ∷ ks) d h = ground (arith, d, h, contains-without m n ks d)

others_in :
    (n : ℕ) (l ns : List ℕ) → contains_number n ns ≡ false → AllIn l ns → AllIn (without n l) ns
unfolding contains_number
others_in n l [] d a = tt
others_in n l (m ∷ ns) d a =
    (contains-without m n l (ground (arith, d)) a.0, others_in n l ns (ground (arith, d)) a.1)

fewer : (l ns : List ℕ) → AllDiffer ns → AllIn l ns → length ns ≤ length l
fewer l [] d a = omega arith
fewer l (n ∷ ns) d a =
    omega (arith, length-without n l a.0, fewer (without n l) ns d.1 (others_in n l ns d.0 a.1))

distinct_differ : (ns : List ℕ) → AllDiffer (distinct ns)
unfolding distinct
distinct_differ [] = tt
distinct_differ (n ∷ ns) = elim (Bool-cases (contains_number n (distinct ns))) [
  | inl seen ↦ rw seen (distinct_differ ns)
  | inr fresh ↦ rw fresh (fresh, distinct_differ ns)
]

distinct_in : (l ns : List ℕ) → AllIn l ns → AllIn l (distinct ns)
unfolding distinct
distinct_in l [] a = tt
distinct_in l (n ∷ ns) a = elim (Bool-cases (contains_number n (distinct ns))) [
  | inl seen ↦ rw seen (distinct_in l ns a.1)
  | inr fresh ↦ rw fresh (a.0, distinct_in l ns a.1)
]

-- No more differ than there are to choose from.
pub distinct_bound : (l ns : List ℕ) → AllIn l ns → length (distinct ns) ≤ length l
distinct_bound l ns a = fewer l (distinct ns) (distinct_differ ns) (distinct_in l ns a)

kept_in : (x : ℕ) (l ns : List ℕ) → AllIn l ns → AllIn (x ∷ l) ns
unfolding contains_number
kept_in x l [] a = tt
kept_in x l (n ∷ ns) a = (ground (arith, a.0), kept_in x l ns a.1)

seen_again :
    (n : ℕ) (ns : List ℕ) → contains_number n (distinct ns) ≡ true → distinct (n ∷ ns) ≡ distinct ns
unfolding distinct
seen_again n ns h = rw h

first_seen :
    (n : ℕ) (ns : List ℕ)
    → contains_number n (distinct ns) ≡ false
    → distinct (n ∷ ns) ≡ n ∷ distinct ns
unfolding distinct
first_seen n ns h = rw h

itself_in : (n : ℕ) (l : List ℕ) → contains_number n (n ∷ l) ≡ true
unfolding contains_number
itself_in n l = ground arith

-- All are among those that differ.
pub in_distinct : (ns : List ℕ) → AllIn (distinct ns) ns
in_distinct [] = tt
in_distinct (n ∷ ns) = elim (Bool-cases (contains_number n (distinct ns))) [
  | inl seen ↦ subst (λ l. AllIn l (n ∷ ns)) (sym (seen_again n ns seen)) (seen, in_distinct ns)
  | inr fresh ↦
      subst (λ l. AllIn l (n ∷ ns)) (sym (first_seen n ns fresh))
        (itself_in n (distinct ns), kept_in n (distinct ns) ns (in_distinct ns))
]
