-- ===== src/Ingestion/Gaps/Missing.antt =====
-- The detected gaps against the missing sequence numbers.
use polymarket_signal_autopi.Base.{
  ℕ, zero, suc, ◌-◌, ◌<◌, ◌≤◌, ◌≡◌, refl, sym, ap, ◌∙◌, inl, inr, Bool, true, false, not, ◌&&◌,
  ◌||◌, List, [], ◌∷◌, ℤ, pos, negsuc, leb_ℤ, length, elem, IsDistinct, All, ltb, ◌==◌, number_eq,
  arith, Bool-cases, Option-cases, none, some,
}
use polymarket_signal_autopi.Ingestion.RawWriter.{RawEvent}
use polymarket_signal_autopi.Ingestion.Gaps.{
  SequenceGap, positive, distinct_sequences, insert_sorted, sort, gaps_after, gaps_of,
  detect_sequence_gaps,
}

-- Whether some number of a list passes a test.
pub any : (ℕ → Bool) → List ℕ → Bool
any p [] = false
any p (n ∷ ns) = p n || any p ns

-- Whether some event carries a positive sequence number that passes a test.
pub some_sequence : (ℕ → Bool) → List RawEvent → Bool
some_sequence p [] = false
some_sequence p (e ∷ es) =
    elim (positive e.sequence) [ none ↦ false | some n ↦ p n ] || some_sequence p es

-- Whether a number lies in one of the gaps.
pub in_gaps : ℕ → List SequenceGap → Bool
in_gaps n [] = false
in_gaps n (g ∷ gs) = (leb_ℤ g.from (pos n) && leb_ℤ (pos n) g.to) || in_gaps n gs

any-insert_sorted :
    (p : ℕ → Bool) (n : ℕ) (ns : List ℕ) → any p (insert_sorted n ns) ≡ (p n || any p ns)
unfolding any insert_sorted
any-insert_sorted p n [] = refl
any-insert_sorted p n (m ∷ ms) = ground (arith, any-insert_sorted p n ms)

any-sort : (p : ℕ → Bool) (ns : List ℕ) → any p (sort ns) ≡ any p ns
unfolding any sort
any-sort p [] = refl
any-sort p (n ∷ ns) = any-insert_sorted p n (sort ns) ∙ ap (λ b. p n || b) (any-sort p ns)

-- Members of a list that a test rejects do not matter for it.
any-elem : (p : ℕ → Bool) (n : ℕ) (ns : List ℕ) → elem n ns ≡ true → p n ≡ true → any p ns ≡ true
unfolding any
any-elem p n [] h t = cc
any-elem p n (m ∷ ms) h t = ground (arith, any-elem p n ms)

any-distinct_sequences :
    (p : ℕ → Bool) (seen : List ℕ) (es : List RawEvent)
    → (any p (distinct_sequences seen es) || any p seen) ≡ (some_sequence p es || any p seen)
unfolding any distinct_sequences some_sequence
any-distinct_sequences p seen [] = refl
any-distinct_sequences p seen (e ∷ es) = elim (Option-cases (positive e.sequence)) [
  | inl skipped ↦ rw (skipped, distinct_sequences) (any-distinct_sequences p seen es)
  | inr (n, kept) ↦
      rw (kept, distinct_sequences)
        (ground (
          arith,
          any-elem p n seen,
          any-distinct_sequences p seen es,
          any-distinct_sequences p (n ∷ seen) es,
        ))
]

-- Every number of a list is greater than a bound, and each is greater than the one before.
abbrev IsRising : ℕ → List ℕ → Type 0
IsRising low [] = Unit
IsRising low (n ∷ ns) = (low < n) × IsRising n ns

insert_sorted-IsRising :
    (low n : ℕ) (ns : List ℕ)
    → low < n
    → elem n ns ≡ false
    → IsRising low ns
    → IsRising low (insert_sorted n ns)
unfolding insert_sorted
insert_sorted-IsRising low n [] h fresh r = (h, tt)
insert_sorted-IsRising low n (m ∷ ms) h fresh (r, rs) =
    ground (arith, insert_sorted-IsRising m n ms)

elem-any : (n : ℕ) (ns : List ℕ) → elem n ns ≡ any (λ m. m == n) ns
unfolding any
elem-any n [] = refl
elem-any n (m ∷ ms) = ground (arith, elem-any n ms)

sort-IsRising : (ns : List ℕ) → IsDistinct ns → All (λ n. 0 < n) ns → IsRising 0 (sort ns)
unfolding sort
sort-IsRising [] d a = tt
sort-IsRising (n ∷ ns) (fresh, d) (h, a) =
    insert_sorted-IsRising 0 n (sort ns) h
      (elem-any n (sort ns) ∙ any-sort _ ns ∙ sym (elem-any n ns) ∙ fresh) (sort-IsRising ns d a)

elem-IsRising : (low n : ℕ) (ns : List ℕ) → IsRising low ns → elem n ns ≡ true → low < n
elem-IsRising low n [] r h = cc
elem-IsRising low n (m ∷ ms) (r, rs) h = ground (arith, elem-IsRising m n ms rs)

-- Above the first of a rising list, the gaps have just the numbers below some member that are none.
in_gaps-gaps_after :
    (n prev : ℕ) (ns : List ℕ)
    → IsRising prev ns
    → in_gaps n (gaps_after prev ns) ≡ (ltb prev n && not (elem n ns) && any (ltb n) ns)
unfolding in_gaps gaps_after any
in_gaps-gaps_after n prev [] r = ground arith
in_gaps-gaps_after n prev (m ∷ ms) (r, rs) = elim (Bool-cases (ltb 1 (m - prev))) [
  | inl wide ↦ rw wide (ground (arith, in_gaps-gaps_after n m ms rs, elem-IsRising m n ms rs))
  | inr close ↦ rw close (ground (arith, in_gaps-gaps_after n m ms rs, elem-IsRising m n ms rs))
]

any_below-IsRising :
    (low n : ℕ) (ns : List ℕ) → IsRising low ns → any (λ m. ltb m n) ns ≡ true → low < n
unfolding any
any_below-IsRising low n [] r h = cc
any_below-IsRising low n (m ∷ ms) (r, rs) h = ground (arith, any_below-IsRising m n ms rs)

in_gaps-gaps_of :
    (n : ℕ) (ns : List ℕ)
    → IsRising 0 ns
    → in_gaps n (gaps_of ns) ≡ (not (elem n ns) && any (λ m. ltb m n) ns && any (ltb n) ns)
unfolding in_gaps any
in_gaps-gaps_of n [] r = refl
in_gaps-gaps_of n (m ∷ ms) (r, rs) =
    ground
      (arith, in_gaps-gaps_after n m ms rs, any_below-IsRising m n ms rs, elem-IsRising m n ms rs)

elem-distinct_sequences :
    (n : ℕ) (seen : List ℕ) (es : List RawEvent)
    → elem n seen ≡ true
    → elem n (distinct_sequences seen es) ≡ false
unfolding distinct_sequences
elem-distinct_sequences n seen [] h = refl
elem-distinct_sequences n seen (e ∷ es) h = elim (Option-cases (positive e.sequence)) [
  | inl skipped ↦ rw (skipped, distinct_sequences) (elem-distinct_sequences n seen es h)
  | inr (k, kept) ↦
      rw (kept, distinct_sequences)
        (ground (arith, elem-distinct_sequences n seen es, elem-distinct_sequences n (k ∷ seen) es))
]

positive-pos : (s : ℤ) (n : ℕ) → positive s ≡ some n → 0 < n
positive-pos (pos zero) n h = cc
positive-pos (pos (suc k)) n h = ground arith
positive-pos (negsuc k) n h = cc

distinct_sequences-IsDistinct :
    (seen : List ℕ) (es : List RawEvent)
    → IsDistinct (distinct_sequences seen es) × All (λ n. 0 < n) (distinct_sequences seen es)
unfolding distinct_sequences
distinct_sequences-IsDistinct seen [] = (tt, tt)
distinct_sequences-IsDistinct seen (e ∷ es) = elim (Option-cases (positive e.sequence)) [
  | inl skipped ↦ rw (skipped, distinct_sequences) (distinct_sequences-IsDistinct seen es)
  | inr (n, kept) ↦
      rw (kept, distinct_sequences)
        (elim (Bool-cases (elem n seen)) [
          | inl old ↦ rw old (distinct_sequences-IsDistinct seen es)
          | inr new ↦
              let (d, a) = distinct_sequences-IsDistinct (n ∷ seen) es in
              rw new (
                (elem-distinct_sequences n (n ∷ seen) es (ground arith), d),
                (positive-pos e.sequence n kept, a),
              )
        ])
]

-- The two early returns give what the loop would.
gaps_of-short : (ns : List ℕ) → ltb (length ns) 2 ≡ true → gaps_of (sort ns) ≡ []
unfolding sort gaps_after
gaps_of-short [] h = refl
gaps_of-short (n ∷ []) h = refl
gaps_of-short (n ∷ m ∷ ms) h = absurd (ground arith)

length-distinct_sequences :
    (seen : List ℕ) (es : List RawEvent) → length (distinct_sequences seen es) ≤ length es
unfolding distinct_sequences
length-distinct_sequences seen [] = omega arith
length-distinct_sequences seen (e ∷ es) = elim (Option-cases (positive e.sequence)) [
  | inl skipped ↦
      rw (skipped, distinct_sequences) (omega (arith, length-distinct_sequences seen es))
  | inr (n, kept) ↦
      rw (kept, distinct_sequences)
        (ground (arith, length-distinct_sequences seen es, length-distinct_sequences (n ∷ seen) es))
]

detect-gaps_of :
    (es : List RawEvent) → detect_sequence_gaps es ≡ gaps_of (sort (distinct_sequences [] es))
unfolding detect_sequence_gaps
detect-gaps_of es =
    ground (arith, length-distinct_sequences [] es, gaps_of-short (distinct_sequences [] es))

-- A number lies in a detected gap exactly if no event carries it, some event carries a smaller positive
-- sequence number, and some event carries a greater one.
pub in_gaps-detect :
    (n : ℕ) (es : List RawEvent)
    → in_gaps n (detect_sequence_gaps es) ≡ (
        not (some_sequence (λ m. m == n) es)
        && some_sequence (λ m. ltb m n) es
        && some_sequence (ltb n) es)
unfolding any
in_gaps-detect n es =
    let seq = distinct_sequences [] es in
    let (d, a) = distinct_sequences-IsDistinct [] es in
    rw (detect-gaps_of es) (
      ground (
        arith,
        in_gaps-gaps_of n (sort seq) (sort-IsRising seq d a),
        elem-any n (sort seq),
        any-sort (λ m. m == n) seq,
        any-sort (λ m. ltb m n) seq,
        any-sort (ltb n) seq,
        any-distinct_sequences (λ m. m == n) [] es,
        any-distinct_sequences (λ m. ltb m n) [] es,
        any-distinct_sequences (ltb n) [] es,
      ))
