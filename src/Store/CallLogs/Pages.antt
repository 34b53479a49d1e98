-- ===== src/Store/CallLogs/Pages.antt =====
-- The pages of the call log.
use callfxo.Prelude.{
  ℕ, zero, suc, ◌+◌, ◌-◌, ◌*◌, ◌%◌, ◌^◌, ◌≤◌, ◌<◌, List, [], ◌∷◌, ◌++◌, ◌≡◌, refl, arith, ap, sym,
  ◌∙◌, take, drop, length,
}
use mathlib.Core.Path.{ap₂}
use native.Mathlib.Nat.{mod-eq_of_lt, zero-add, add-zero, suc-add, suc-mul, zero-mul}
use callfxo.Prelude.Integers.{ℤ, pos}
use callfxo.Prelude.Equality.{int_eq}
use callfxo.Store.Schema.{CallLog, Tables, Store, Action, ok, ◌>>=◌, read, pure}
use callfxo.Store.Statements.{read-eq-ok, >>=-eq-ok, ok-injective}
use callfxo.Store.CallLogs.{
  page_offset, normalize_page, normalize_page_size, logs_of_user, list_call_logs_by_user,
  count_logs, page_of_logs,
}

-- A product below 2^63 is the offset itself.
pub page_offset-exact : (k size : ℕ) → k * size < 2 ^ 63 → page_offset (suc k) size ≡ k * size
unfolding page_offset
page_offset-exact k size h =
    let e : suc k - 1 ≡ k = omega arith in
    let m : k * size % 2 ^ 64 ≡ k * size = mod-eq_of_lt (omega arith) in rw (e, m) (ground arith)

module _ {A : Type 0} where
  -- The pages 1 to n of a list, one after the other.
  pub pages : ℕ → ℕ → List A → List A
  pages size zero xs = []
  pages size (suc n) xs = pages size n xs ++ take size (drop (page_offset (suc n) size) xs)

  take-add : (m n : ℕ) (xs : List A) → take m xs ++ take n (drop m xs) ≡ take (m + n) xs
  take-add zero n xs = rw zero-add
  take-add (suc m) zero [] = rw add-zero
  take-add (suc m) (suc n) [] = rw suc-add
  take-add (suc m) n (x ∷ xs) = rw suc-add (ap (◌∷◌ x) (take-add m n xs))

  take-all : (n : ℕ) (xs : List A) → length xs ≤ n → take n xs ≡ xs
  take-all zero [] h = refl
  take-all zero (x ∷ xs) h = absurd (omega arith)
  take-all (suc n) [] h = refl
  take-all (suc n) (x ∷ xs) h = ap (◌∷◌ x) (take-all n xs (omega arith))

  pages-take : (size n : ℕ) (xs : List A) → n * size < 2 ^ 63 → pages size n xs ≡ take (n * size) xs
  unfolding pages
  pages-take size zero xs h = rw (zero-mul size) refl
  pages-take size (suc n) xs h =
      let step : suc n * size ≡ n * size + size = suc-mul n size in
      let within : n * size < 2 ^ 63 = omega (arith, step) in
      rw (pages-take size n xs within, page_offset-exact n size within, step)
        (take-add (n * size) size xs)

-- The lists that a client has after it asked for the pages 1 to n in turn, each answered from the same
-- tables.
pub data Browse (user_id : ℤ) (size : ℕ) (t : Tables) : ℕ → List CallLog → Type 0 where
  start : Browse user_id size t 0 []
  next :
      {n : ℕ} {seen items : List CallLog} (total : ℕ) (s s' : Store)
      → Browse user_id size t n seen
      → s.tables ≡ t
      → list_call_logs_by_user user_id (pos (suc n)) (pos size) s ≡ (ok (items, total), s')
      → Browse user_id size t (suc n) (seen ++ items)

normalize_page-pos : (n : ℕ) → normalize_page (pos (suc n)) ≡ suc n
unfolding normalize_page
normalize_page-pos n = ground arith

normalize_page_size-pos : (n : ℕ) → 0 < n → n ≤ 100 → normalize_page_size (pos n) ≡ n
unfolding normalize_page_size
normalize_page_size-pos n lo hi = ground arith

pub page-items :
    (user_id : ℤ) (n size : ℕ) (s : Store) {items : List CallLog} {total : ℕ} {s' : Store}
    → 0 < size
    → size ≤ 100
    → list_call_logs_by_user user_id (pos (suc n)) (pos size) s ≡ (ok (items, total), s')
    → items ≡ take size (drop (page_offset (suc n) size) (logs_of_user user_id s.tables))
unfolding list_call_logs_by_user page_of_logs
page-items user_id n size s {items} {total} lo hi h =
    let page = normalize_page (pos (suc n)) in
    let limit = normalize_page_size (pos size) in
    let counting = read (λ t. ok (count_logs user_id t)) in
    let listing = read (λ t. ok (page_of_logs user_id page limit t)) in
    let (count, s₁, counted, rest) =
      >>=-eq-ok counting (λ k. listing >>= λ found. pure (found, k)) s h in
    let (found, s₂, listed, done) = >>=-eq-ok listing (λ found. pure (found, count)) s₁ rest in
    let (_, kept) = read-eq-ok (λ t. ok (count_logs user_id t)) s counted in
    let (at, _) = read-eq-ok (λ t. ok (page_of_logs user_id page limit t)) s₁ listed in
    let got : page_of_logs user_id page limit s₁.tables ≡ items = cc (ok-injective at, done) in
    sym got ∙ rw (kept, normalize_page-pos n, normalize_page_size-pos size lo hi) refl

Browse-pages :
    {user_id : ℤ} {size : ℕ} {t : Tables} {n : ℕ} {seen : List CallLog}
    → 0 < size
    → size ≤ 100
    → Browse user_id size t n seen
    → seen ≡ pages size n (logs_of_user user_id t)
unfolding pages
Browse-pages lo hi start = refl
Browse-pages {user_id} {size} lo hi (next {n} total s s' b e h) = ap₂ ◌++◌ (Browse-pages lo hi b) (
    page-items user_id n size s lo hi h
    ∙ ap (λ u. take size (drop (page_offset (suc n) size) (logs_of_user user_id u))) e)

-- A client that asks for the pages 1 to n of a size from 1 to 100, enough pages for the rows of the user
-- and few enough for the offset to fit int64, has each call log of the user once, newest first.
pub Browse-logs_of_user :
    {user_id : ℤ} {size : ℕ} {t : Tables} {n : ℕ} {seen : List CallLog}
    → 0 < size
    → size ≤ 100
    → length (logs_of_user user_id t) ≤ n * size
    → n * size < 2 ^ 63
    → Browse user_id size t n seen
    → seen ≡ logs_of_user user_id t
Browse-logs_of_user {user_id} {size} {t} {n} lo hi enough fits b =
    Browse-pages lo hi b
    ∙ pages-take size n (logs_of_user user_id t) fits
    ∙ take-all (n * size) (logs_of_user user_id t) enough

page_offset-wraps : (n m : ℕ) → page_offset (suc (n + m * 2 ^ 58)) 64 ≡ page_offset (suc n) 64
unfolding page_offset
page_offset-wraps n m =
    let e : (suc (n + m * 2 ^ 58) - 1) * 64 % 2 ^ 64 ≡ (suc n - 1) * 64 % 2 ^ 64 = omega arith in
    rw e refl

-- The listing at an offset.
listed_at : ℤ → ℕ → ℕ → Action (List CallLog × ℕ)
listed_at user_id offset size = do
  total ← read (λ t. ok (count_logs user_id t))
  items ← read (λ t. ok (take size (drop offset (logs_of_user user_id t))))
  pure (items, total)

list-listed_at :
    (user_id : ℤ) (n : ℕ)
    → list_call_logs_by_user user_id (pos (suc n)) (pos 64)
      ≡ listed_at user_id (page_offset (suc n) 64) 64
unfolding list_call_logs_by_user page_of_logs listed_at
list-listed_at user_id n =
    ap₂ (λ page size. listed_at user_id (page_offset page size) size) (normalize_page-pos n)
      (normalize_page_size-pos 64 (omega arith) (omega arith))

-- The product that makes the offset of a page wraps around: in pages of 64, the page n + 1 + m * 2^58 is answered as the
-- page n + 1 is, with the same call logs and the same total, from every state of the store.
pub list_call_logs_by_user-wraps :
    (user_id : ℤ) (n m : ℕ) (s : Store)
    → list_call_logs_by_user user_id (pos (suc (n + m * 2 ^ 58))) (pos 64) s
      ≡ list_call_logs_by_user user_id (pos (suc n)) (pos 64) s
list_call_logs_by_user-wraps user_id n m s =
    ap (λ (f : Action (List CallLog × ℕ)). f s)
      (list-listed_at user_id (n + m * 2 ^ 58)
        ∙ ap (λ k. listed_at user_id k 64) (page_offset-wraps n m)
        ∙ sym (list-listed_at user_id n))
