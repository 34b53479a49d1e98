-- ===== src/Web/Listings/Pages.antt =====
-- The pages that the listing of calls answers with, and the number of pages that it announces.
use callfxo.Prelude.{
  ℕ, zero, suc, ◌+◌, ◌-◌, ◌*◌, ◌^◌, ◌≤◌, ◌<◌, Bool, Option, none, some, subst, if◌then◌else◌, List,
  [], ◌∷◌, map, ◌≡◌, refl, arith, ap, sym, ◌∙◌, length, take, drop, length-append, is_nil, ltb, leb,
  Bool-cases, inl, inr,
}
use native.Mathlib.Nat.{div-lt_iff_lt-mul}
use mathlib.Core.List.{reverse, reverse-append}
use callfxo.Prelude.Integers.{ℤ, pos, negsuc}
use callfxo.Prelude.Equality.{◌==◌, int_eq}
use callfxo.Prelude.Rows.{select, count_where}
use callfxo.Store.Schema.{CallLog, CallLogRow, Tables, Store, ok, ◌>>=◌, pure, read}
use callfxo.Store.Statements.{read-eq-ok, >>=-eq-ok, ok-injective}
use callfxo.Store.CallLogs.{
  page_of_logs, normalize_page, normalize_page_size, logs_of_user, count_logs,
  list_call_logs_by_user,
}
use callfxo.Store.CallLogs.Pages.{page-items, page_offset-exact}
use callfxo.Text.{Text, trim_space}
use callfxo.Text.Parse.{atoi}
use callfxo.Auth.{Session}
use mathlib.Core.Option.{some-injective}
use callfxo.Web.Http.{CallPage, Body, call_page, Response, reply, failure, with_session}
use callfxo.Web.Http.Results.{answer_result-good}
use callfxo.Web.Listings.{
  positive_number, query_number, total_pages, calls_page, calls_with, handle_list_calls,
}

take-drop-nil :
    {A : Type 0} (size k : ℕ) (xs : List A)
    → is_nil (take (suc size) (drop k xs)) ≡ leb (length xs) k
take-drop-nil size zero [] = refl
take-drop-nil size zero (x ∷ xs) = ground arith
take-drop-nil size (suc k) [] = ground arith
take-drop-nil size (suc k) (x ∷ xs) = take-drop-nil size k xs ∙ ground arith

pages_cover : (total n size : ℕ) → leb (total_pages total (suc size)) n ≡ leb total (n * suc size)
unfolding total_pages
pages_cover total n size = elim (Bool-cases (ltb 0 total)) [
  | inl some_rows ↦
      let (there, back) =
        div-lt_iff_lt-mul {k = suc size} {x = total + suc size - 1} {y = suc n} (omega arith) in
      let e : suc n * suc size ≡ n * suc size + suc size = grind arith in
      rw some_rows (ground (arith, there, back, e))
  | inr none_there ↦ rw none_there (ground arith)
]

length-map : {A B : Type 0} (f : A → B) (xs : List A) → length (map f xs) ≡ length xs
length-map f [] = refl
length-map f (x ∷ xs) = ap suc (length-map f xs)

length-reverse : {A : Type 0} (xs : List A) → length (reverse xs) ≡ length xs
length-reverse [] = refl
length-reverse (x ∷ xs) =
    ap length (reverse-append (x ∷ []) xs)
    ∙ length-append (reverse xs) (x ∷ [])
    ∙ omega (arith, length-reverse xs)

length-select :
    {A : Type 0} (test : A → Bool) (xs : List A) → length (select test xs) ≡ count_where test xs
unfolding select count_where
length-select test [] = refl
length-select test (x ∷ xs) = ground (arith, length-select test xs)

length-logs_of_user :
    (user_id : ℤ) (t : Tables) → length (logs_of_user user_id t) ≡ count_logs user_id t
unfolding logs_of_user count_logs
length-logs_of_user user_id t =
    length-map _ (reverse (select (λ (l : CallLogRow). l.user_id == user_id) t.call_logs))
    ∙ length-reverse (select (λ (l : CallLogRow). l.user_id == user_id) t.call_logs)
    ∙ length-select (λ (l : CallLogRow). l.user_id == user_id) t.call_logs

total-eq-count_logs :
    (user_id : ℤ) (n size : ℕ) (s : Store) {items : List CallLog} {total : ℕ} {s' : Store}
    → list_call_logs_by_user user_id (pos (suc n)) (pos size) s ≡ (ok (items, total), s')
    → total ≡ count_logs user_id s.tables
unfolding list_call_logs_by_user
total-eq-count_logs user_id n size s {items} {total} h =
    let page = normalize_page (pos (suc n)) in
    let limit = normalize_page_size (pos size) in
    let listing = read (λ t. ok (page_of_logs user_id page limit t)) in
    let (count, s₁, was, rest) =
      >>=-eq-ok (read (λ t. ok (count_logs user_id t))) (λ k. listing >>= λ found. pure (found, k))
        s h in
    let (found, s₂, listed, done) = >>=-eq-ok listing (λ found. pure (found, count)) s₁ rest in
    let (at, kept) = read-eq-ok (λ t. ok (count_logs user_id t)) s was in cc (ok-injective at, done)

-- A page that is listed is empty exactly where its number is above the number of pages that is announced
-- with it, for a page size from 1 to 100 and an offset that fits int64.
list_call_logs-total_pages :
    (user_id : ℤ) (n size : ℕ) (s : Store) {items : List CallLog} {total : ℕ} {s' : Store}
    → suc size ≤ 100
    → n * suc size < 2 ^ 63
    → list_call_logs_by_user user_id (pos (suc n)) (pos (suc size)) s ≡ (ok (items, total), s')
    → is_nil items ≡ leb (total_pages total (suc size)) n
list_call_logs-total_pages user_id n size s {items} {total} hi fits h =
    ap is_nil (page-items user_id n (suc size) s (omega arith) hi h)
    ∙ ap (λ k. is_nil (take (suc size) (drop k (logs_of_user user_id s.tables))))
        (page_offset-exact n (suc size) fits)
    ∙ take-drop-nil size (n * suc size) (logs_of_user user_id s.tables)
    ∙ ap (λ k. leb k (n * suc size))
        (length-logs_of_user user_id s.tables ∙ sym (total-eq-count_logs user_id n (suc size) s h))
    ∙ sym (pages_cover total n size)

positive_number-pos : (o : Option ℤ) {v : ℕ} → positive_number o ≡ some v → 0 < v
positive_number-pos none h = cc
positive_number-pos (some (pos n)) {v} h = elim (Bool-cases (ltb 0 n)) [
  | inl good ↦ let e = some-injective n v (rw good at h) in ground arith
  | inr bad ↦ cc (rw bad at h)
]
positive_number-pos (some (negsuc n)) h = cc

query_number-pos :
    (raw : Text) (fallback : ℕ) {v : ℕ} → 0 < fallback → query_number raw fallback ≡ some v → 0 < v
unfolding query_number
query_number-pos raw fallback {v} given h = elim (Bool-cases (is_nil (trim_space raw))) [
  | inl blank ↦ let e = some-injective fallback v (rw blank at h) in omega (arith, e)
  | inr there ↦ positive_number-pos (atoi (trim_space raw)) (rw there at h)
]

-- A page as it is answered: the call logs of the user, newest first, from its number and its size, the number of
-- them all, and a number of pages that is below the page's number exactly where the page is empty.
abbrev pub IsPage : ℤ → Store → CallPage → Type 0
IsPage user_id s p =
    (0 < p.page)
    × (0 < p.page_size)
    × (p.page_size ≤ 100)
    × (p.items
        ≡ take p.page_size (drop ((p.page - 1) * p.page_size) (logs_of_user user_id s.tables)))
    × (p.total ≡ count_logs user_id s.tables)
    × (is_nil p.items ≡ leb p.total_pages (p.page - 1))

page_or : CallPage → Body → CallPage
page_or p (call_page q) = q
page_or p other = p

answered_page : {p q : CallPage} → call_page p ≡ call_page q → p ≡ q
unfolding page_or
answered_page {p} h = ap (page_or p) h

listed-IsPage :
    (user_id : ℤ) (n k : ℕ) (s : Store) {items : List CallLog} {total : ℕ} {s₁ : Store}
    → suc k ≤ 100
    → n * suc k < 2 ^ 63
    → list_call_logs_by_user user_id (pos (suc n)) (pos (suc k)) s ≡ (ok (items, total), s₁)
    → IsPage user_id s (record {
      items = items;
      page = suc n;
      page_size = suc k;
      total = total;
      total_pages = total_pages total (suc k);
    })
listed-IsPage user_id n k s hi fits h =
    let e : suc n - 1 ≡ n = omega arith in
    rw e (
      omega arith,
      omega arith,
      hi,
      page-items user_id n (suc k) s (omega arith) hi h
          ∙ ap (λ j. take (suc k) (drop j (logs_of_user user_id s.tables)))
              (page_offset-exact n (suc k) fits),
      total-eq-count_logs user_id n (suc k) s h,
      list_call_logs-total_pages user_id n k s hi fits h,
    )

calls_page-IsPage :
    (session : Session) (page size : ℕ) (s : Store) {p : CallPage} {s' : Store}
    → 0 < page
    → 0 < size
    → size ≤ 100
    → calls_page session page size s ≡ (reply 200 (call_page p), s')
    → (p.page - 1) * p.page_size < 2 ^ 63
    → IsPage session.user_id s p
calls_page-IsPage session zero size s lo some_size hi h fits = absurd (omega arith)
calls_page-IsPage session (suc n) zero s lo some_size hi h fits = absurd (omega arith)
calls_page-IsPage session (suc n) (suc k) s {p} lo some_size hi h fits =
    let (found, s₁, listed, rest) =
      answer_result-good (list_call_logs_by_user session.user_id (pos (suc n)) (pos (suc k)) s)
        (λ e. reply 500 (failure e))
        (λ found s₁. (
          reply 200 (
              call_page (record {
                items = found.0;
                page = suc n;
                page_size = suc k;
                total = found.1;
                total_pages = total_pages found.1 (suc k);
              })),
          s₁,
        ))
        (λ e. λ (bad : ◌≡◌ {A = ℕ} 500 200). absurd (omega arith)) h refl in
    let same = answered_page (ap (λ (x : Response × Store). (x.0).body) rest) in
    subst (λ (q : CallPage). (q.page - 1) * q.page_size < 2 ^ 63 → IsPage session.user_id s q) same
      (λ bound.
        let e : suc n - 1 ≡ n = omega arith in
        listed-IsPage session.user_id n k s hi (rw e at bound) listed)
      fits

calls_with-IsPage :
    (session : Session) (page size : Option ℕ) (s : Store) {p : CallPage} {s' : Store}
    → ((v : ℕ) → page ≡ some v → 0 < v)
    → ((v : ℕ) → size ≡ some v → 0 < v)
    → calls_with session page size s ≡ (reply 200 (call_page p), s')
    → (p.page - 1) * p.page_size < 2 ^ 63
    → IsPage session.user_id s p
calls_with-IsPage session none size s lo some_size h fits = cc
calls_with-IsPage session (some page) none s lo some_size h fits = cc
calls_with-IsPage session (some page) (some size) s lo some_size h fits =
    let size_is = some_size size refl in
    calls_page-IsPage session page (if ltb 100 size then 100 else size) s (lo page refl)
      (ground arith) (ground arith) h fits

-- Where the listing of calls is answered with a page, for whatever texts in the query, and the offset of the
-- page fits int64, the page has the call logs of the user, newest first, from its number and its size, which is
-- from 1 to 100; its total is the number of all of them, and it is empty exactly where its number is above
-- the number of pages that it announces.
pub handle_list_calls-IsPage :
    (raw_page raw_page_size : Text) (session : Session) (s : Store) {p : CallPage} {s' : Store}
    → handle_list_calls raw_page raw_page_size (some session) s ≡ (reply 200 (call_page p), s')
    → (p.page - 1) * p.page_size < 2 ^ 63
    → IsPage session.user_id s p
unfolding handle_list_calls with_session
handle_list_calls-IsPage raw_page raw_page_size session s h fits =
    calls_with-IsPage session (query_number raw_page 1) (query_number raw_page_size 10) s
      (λ v. query_number-pos raw_page 1 (omega arith))
      (λ v. query_number-pos raw_page_size 10 (omega arith)) h fits
