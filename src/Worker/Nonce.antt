-- ===== src/Worker/Nonce.antt =====
-- The nonces of the orders: `monotonicNonceProvider`, and `dbAtomicNonceProvider` over the store's
-- `AllocateRuntimeNonce` of internal/persistence/store.go, with the query that it sends to the database.
use polymarket_signal_autopi.Base.{
  ℕ, suc, ◌+◌, ◌<◌, ◌^◌, ◌≡◌, refl, true, false, String, Option, none, some, List, [], ◌∷◌, ℤ, pos,
  negsuc, ◌+ℤ◌, ◌<ℤ◌, ap, ◌∙◌, ◌≤ℤ◌, ltb_ℤ, leb_ℤ, ◌&&◌, wrap64, ◌==◌, text_eq, if◌then◌else◌,
  Result, ok, err, arith, length, All,
}
use polymarket_signal_autopi.Text.{trim_space}
use polymarket_signal_autopi.Text.Decimal.{concat}

pub record MonotonicNonceProvider : Type 0 where
  pub next : ℤ

-- `newMonotonicNonceProvider`
unfoldable pub new_monotonic_nonce_provider : ℤ → Result MonotonicNonceProvider
new_monotonic_nonce_provider initial =
    if ltb_ℤ initial (pos 0)
    then err "POLY_ORDER_NONCE must be >= 0"
    else ok (record { next = initial })

-- `NextNonce` of the provider, which holds its mutex; the last argument is the error that storing the next
-- nonce gives, if it does.
unfoldable pub next_nonce :
    MonotonicNonceProvider → Option String → MonotonicNonceProvider × Result ℤ
next_nonce p (some why) = (p, err (concat ("persist nonce state: " ∷ why ∷ [])))
next_nonce p none = (record { next = wrap64 (p.next +ℤ pos 1) }, ok p.next)

-- The nonces that a sequence of calls returns.
pub handed_out : MonotonicNonceProvider → List (Option String) → List ℤ
handed_out p [] = []
handed_out p (answer ∷ answers) =
    let r = next_nonce p answer in
    let rest = handed_out r.0 answers in elim r.1 [ ok nonce ↦ nonce ∷ rest | err why ↦ rest ]

-- The numbers from one on, as many as there are calls that store.
pub counted_from : ℕ → List (Option String) → List ℤ
counted_from n [] = []
counted_from n (some why ∷ answers) = counted_from n answers
counted_from n (none ∷ answers) = pos n ∷ counted_from (suc n) answers

-- From a start that is not negative, and as long as 63 bits are enough: the calls that can store the next
-- nonce return the numbers from the start on, one by one, each once; a call that cannot store it
-- returns an error and uses up none.
pub handed_out-counted :
    (n : ℕ) (answers : List (Option String))
    → n + length answers < 2 ^ 63
    → handed_out (record { next = pos n }) answers ≡ counted_from n answers
unfolding handed_out counted_from next_nonce
handed_out-counted n [] h = refl
handed_out-counted n (some why ∷ answers) h = handed_out-counted n answers (ground (arith, h))
handed_out-counted n (none ∷ answers) h =
    let next : wrap64 (pos n +ℤ pos 1) ≡ pos (suc n) = ground (arith, h) in
    rw (next, handed_out-counted (suc n) answers (ground (arith, h))) refl

-- The value of a key of the table `runtime_state`, as `allocateNonceQuery` tells values apart.
pub data RuntimeValue : Type 0 where
  missing : RuntimeValue
  digits : ℤ → RuntimeValue
  words : String → RuntimeValue

-- The two sums of the query, which Postgres refuses where the result does not fit the type; the error is
-- the name of its condition. A parameter that is added to a literal of the type `integer` is an `integer`
-- itself, so `$2 + 1` is a sum of 32 bits; the sum with the stored number is one of the type `bigint`.
unfoldable pub seed_plus_one : ℤ → Result ℤ
seed_plus_one seed =
    if ltb_ℤ (seed +ℤ pos 1) (pos (2 ^ 31))
    then ok (seed +ℤ pos 1)
    else err "numeric_value_out_of_range"

unfoldable pub stored_plus_one : ℤ → Result ℤ
stored_plus_one n =
    if leb_ℤ (negsuc 9_223_372_036_854_775_807) n && ltb_ℤ (n +ℤ pos 1) (pos (2 ^ 63))
    then ok (n +ℤ pos 1)
    else err "numeric_value_out_of_range"

-- The row that a sum leaves, and the number before it, which the query returns.
abbrev stored : RuntimeValue → Result ℤ → RuntimeValue × Result ℤ
stored value (err why) = (value, err why)
stored value (ok next) = (digits next, ok (next +ℤ negsuc 0))

-- What is done with the row, once the sum with the seed is there: it is inserted, one is added to the number
-- that is there already, or a value that is no number is replaced.
unfoldable pub upsert : RuntimeValue → Result ℤ → RuntimeValue × Result ℤ
upsert value (err why) = (value, err why)
upsert missing (ok seeded) = stored missing (ok seeded)
upsert (digits n) (ok seeded) = stored (digits n) (stored_plus_one n)
upsert (words text) (ok seeded) = stored (words text) (ok seeded)

-- `allocateNonceQuery`. Its row of values, with the sum, is computed before a conflict is looked for.
unfoldable pub allocate_nonce_query : RuntimeValue → ℤ → RuntimeValue × Result ℤ
allocate_nonce_query value seed = upsert value (seed_plus_one seed)

-- What `AllocateRuntimeNonce` makes of the answer of the query.
abbrev allocated_nonce : Result ℤ → Result ℤ
allocated_nonce (err why) = err (concat ("allocate runtime nonce: " ∷ why ∷ []))
allocated_nonce (ok allocated) =
    if ltb_ℤ allocated (pos 0) then err "allocated runtime nonce must be >= 0" else ok allocated

-- `AllocateRuntimeNonce` of the store, on the value of the key.
unfoldable pub allocate_runtime_nonce : RuntimeValue → String → ℤ → RuntimeValue × Result ℤ
allocate_runtime_nonce value key seed =
    if trim_space key == ""
    then (value, err "runtime nonce key is required")
    else if ltb_ℤ seed (pos 0)
    then (value, err "runtime nonce seed must be >= 0")
    else ((allocate_nonce_query value seed).0, allocated_nonce (allocate_nonce_query value seed).1)

pub record DbAtomicNonceProvider : Type 0 where
  pub key : String
  pub seed : ℤ

-- `newDBAtomicNonceProvider`, where there is a store
unfoldable pub new_db_atomic_nonce_provider : String → ℤ → Result DbAtomicNonceProvider
new_db_atomic_nonce_provider key seed =
    if trim_space key == ""
    then err "runtime nonce state key is required"
    else if ltb_ℤ seed (pos 0)
    then err "POLY_ORDER_NONCE must be >= 0"
    else ok (record { key = trim_space key; seed = seed })

abbrev named_error : Result ℤ → Result ℤ
named_error (err why) = err (concat ("allocate db atomic nonce: " ∷ why ∷ []))
named_error (ok nonce) = ok nonce

-- `NextNonce` of the provider, on the value of its key.
unfoldable pub next_db_nonce : DbAtomicNonceProvider → RuntimeValue → RuntimeValue × Result ℤ
next_db_nonce p value = let r = allocate_runtime_nonce value p.key p.seed in (r.0, named_error r.1)

-- What calls of providers under one key return, one after another, whichever process makes them.
pub allocations : RuntimeValue → List DbAtomicNonceProvider → List (Result ℤ)
allocations value [] = []
allocations value (p ∷ ps) = (next_db_nonce p value).1 ∷ allocations (next_db_nonce p value).0 ps

-- A provider as `newDBAtomicNonceProvider` makes it, whose seed is less than 2^31 - 1.
abbrev pub IsProvider : DbAtomicNonceProvider → Type 0
IsProvider p =
    (trim_space p.key == "" ≡ false) × (pos 0 ≤ℤ p.seed) × (p.seed +ℤ pos 1 <ℤ pos (2 ^ 31))

pub nonces_from : ℕ → List DbAtomicNonceProvider → List (Result ℤ)
nonces_from n [] = []
nonces_from n (p ∷ ps) = ok (pos n) ∷ nonces_from (suc n) ps

seed_plus_one_lem :
    (seed : ℤ) → seed +ℤ pos 1 <ℤ pos (2 ^ 31) → seed_plus_one seed ≡ ok (seed +ℤ pos 1)
unfolding seed_plus_one
seed_plus_one_lem seed h =
    let y : ltb_ℤ (seed +ℤ pos 1) (pos (2 ^ 31)) ≡ true = ground (arith, h) in rw y refl

upsert-digits :
    (n : ℕ) (seeded : ℤ)
    → n + 1 < 2 ^ 63
    → upsert (digits (pos n)) (ok seeded) ≡ (digits (pos (suc n)), ok (pos n))
unfolding upsert stored_plus_one
upsert-digits n seeded h =
    let fits : ltb_ℤ (pos n +ℤ pos 1) (pos (2 ^ 63)) ≡ true = ground (arith, h) in
    let low : leb_ℤ (negsuc 9_223_372_036_854_775_807) (pos n) ≡ true = ground arith in
    let up : pos n +ℤ pos 1 ≡ pos (suc n) = ground arith in
    let down : pos (suc n) +ℤ negsuc 0 ≡ pos n = ground arith in rw (low, fits) (rw (up, down) refl)

upsert-missing : (n : ℕ) → upsert missing (ok (pos n +ℤ pos 1)) ≡ (digits (pos (suc n)), ok (pos n))
unfolding upsert
upsert-missing n =
    let up : pos n +ℤ pos 1 ≡ pos (suc n) = ground arith in
    let down : pos (suc n) +ℤ negsuc 0 ≡ pos n = ground arith in rw (up, down) refl

next_db_nonce-digits :
    (p : DbAtomicNonceProvider) (n : ℕ)
    → IsProvider p
    → n + 1 < 2 ^ 63
    → next_db_nonce p (digits (pos n)) ≡ (digits (pos (suc n)), ok (pos n))
unfolding next_db_nonce allocate_runtime_nonce allocate_nonce_query
next_db_nonce-digits p n (named, seeded, small) h =
    let seed : ltb_ℤ p.seed (pos 0) ≡ false = ground (arith, seeded) in
    rw (named, seed, seed_plus_one_lem p.seed small, upsert-digits n (p.seed +ℤ pos 1) h)
      (ground arith)

first_db_nonce :
    (p : DbAtomicNonceProvider) (n : ℕ)
    → p.seed ≡ pos n
    → IsProvider p
    → next_db_nonce p missing ≡ (digits (pos (suc n)), ok (pos n))
unfolding next_db_nonce allocate_runtime_nonce allocate_nonce_query
first_db_nonce p n e (named, seeded, small) =
    let seed : ltb_ℤ p.seed (pos 0) ≡ false = ground (arith, seeded) in
    let sum = seed_plus_one_lem p.seed small ∙ ap (λ s. ok (s +ℤ pos 1)) e in
    rw (named, seed, sum, upsert-missing n) (ground arith)

allocations-digits :
    (n : ℕ) (ps : List DbAtomicNonceProvider)
    → All IsProvider ps
    → n + length ps < 2 ^ 63
    → allocations (digits (pos n)) ps ≡ nonces_from n ps
unfolding allocations nonces_from
allocations-digits n [] h fits = refl
allocations-digits n (p ∷ ps) (h, hs) fits =
    rw
      (
        next_db_nonce-digits p n h (ground (arith, fits)),
        allocations-digits (suc n) ps hs (ground (arith, fits)),
      )
      refl

-- However the processes that share a key interleave, and whatever their seeds, as long as each seed is not
-- negative and less than 2^31 - 1: where the key, which is not blank, has no value yet, the calls return
-- the numbers from the first one's seed on, each once, without a gap, as long as 63 bits are enough.
pub allocations-missing :
    (p : DbAtomicNonceProvider) (ps : List DbAtomicNonceProvider) (n : ℕ)
    → p.seed ≡ pos n
    → All IsProvider (p ∷ ps)
    → n + length (p ∷ ps) < 2 ^ 63
    → allocations missing (p ∷ ps) ≡ nonces_from n (p ∷ ps)
unfolding allocations nonces_from
allocations-missing p ps n e (h, hs) fits =
    rw (first_db_nonce p n e h, allocations-digits (suc n) ps hs (ground (arith, fits))) refl

-- A provider whose seed is from 2^31 - 1 on gets no nonce, whatever value the key has, and changes nothing.
pub next_db_nonce-large_seed :
    (p : DbAtomicNonceProvider) (value : RuntimeValue)
    → trim_space p.key == "" ≡ false
    → pos (2 ^ 31) ≤ℤ p.seed +ℤ pos 1
    → ((next_db_nonce p value).0 ≡ value) × ((why : String) × ((next_db_nonce p value).1 ≡ err why))
unfolding next_db_nonce allocate_runtime_nonce allocate_nonce_query upsert seed_plus_one
next_db_nonce-large_seed p value named large =
    let seed : ltb_ℤ p.seed (pos 0) ≡ false = ground (arith, large) in
    let sum : ltb_ℤ (p.seed +ℤ pos 1) (pos (2 ^ 31)) ≡ false = ground (arith, large) in
    rw (named, seed, sum) (refl, (_, refl))
