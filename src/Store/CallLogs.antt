-- ===== src/Store/CallLogs.antt =====
-- internal/store/store.go, lines 798 to 875: the call log and its pages.
pub mod Pages
use callfxo.Prelude.{
  ℕ, suc, ◌+◌, ◌-◌, ◌*◌, ◌%◌, ◌^◌, Bool, true, false, Option, none, some, List, [], ◌∷◌, ◌++◌, map,
  ltb, leb, take, drop, length, if◌then◌else◌,
}
use mathlib.Core.List.{reverse}
use callfxo.Prelude.Integers.{ℤ, pos, negsuc, is_positive, to_nat}
use callfxo.Prelude.Equality.{◌==◌, int_eq, list_eq, nat_eq}
use callfxo.Prelude.Rows.{select, update_where, first, count_where}
use callfxo.Text.{Text}
use callfxo.Store.Schema.{
  FxoBox, CallLogRow, CallLog, Tables, Store, constraint, Result, ok, err, Action, ◌>>=◌, pure,
  statement, read, has_box,
}

unfoldable pub insert_call_log : ℤ → ℤ → Text → Text → Text → ℕ → Tables → Result ℤ × Tables
unfolding has_box
insert_call_log user_id box_id number status reason now t =
    let row : CallLogRow = record {
      id = pos t.next_call_log;
      user_id = user_id;
      fxo_box_id = box_id;
      number = number;
      started_at = now;
      ended_at = none;
      status = status;
      reason = reason;
    } in
    if has_box box_id t
    then (
      ok (pos t.next_call_log),
      record t { call_logs = t.call_logs ++ row ∷ []; next_call_log = suc t.next_call_log },
    )
    else (err constraint, t)

unfoldable pub create_call_log : ℤ → ℤ → Text → Text → Text → ℕ → Action ℤ
unfolding statement insert_call_log
create_call_log user_id box_id number status reason now =
    statement (insert_call_log user_id box_id number status reason now)

-- An id with no row is no error.
unfoldable pub end_call_log : ℤ → Text → Text → ℕ → Action (Unit {0})
unfolding statement
end_call_log id status reason now = statement λ t. (
  ok tt,
  record t {
    call_logs =
        update_where (λ (l : CallLogRow). l.id == id)
          (λ l. record l { ended_at = some now; status = status; reason = reason }) t.call_logs;
  },
)

-- int64 multiplication, as SQLite reads the result: a negative OFFSET is 0.
unfoldable pub page_offset : ℕ → ℕ → ℕ
page_offset page page_size =
    let product = (page - 1) * page_size % 2 ^ 64 in if ltb product (2 ^ 63) then product else 0

unfoldable pub normalize_page : ℤ → ℕ
normalize_page page = if is_positive page then to_nat page else 1

unfoldable pub normalize_page_size : ℤ → ℕ
normalize_page_size page_size =
    if is_positive page_size
    then (if ltb 100 (to_nat page_size) then 100 else to_nat page_size)
    else 10

-- COALESCE(b.name, '') of the LEFT JOIN.
unfoldable pub box_name : List FxoBox → ℤ → Text
box_name boxes id = elim (first (λ (b : FxoBox). b.id == id) boxes) [ none ↦ [] | some b ↦ b.name ]

-- The rows of the user, newest first, before LIMIT and OFFSET.
unfoldable pub logs_of_user : ℤ → Tables → List CallLog
unfolding box_name
logs_of_user user_id t =
    map (λ (l : CallLogRow). record { row = l; fxo_box_name = box_name t.boxes l.fxo_box_id })
      (reverse (select (λ (l : CallLogRow). l.user_id == user_id) t.call_logs))

unfoldable pub count_logs : ℤ → Tables → ℕ
count_logs user_id t = count_where (λ (l : CallLogRow). l.user_id == user_id) t.call_logs

-- LIMIT and OFFSET
unfoldable pub page_of_logs : ℤ → ℕ → ℕ → Tables → List CallLog
page_of_logs user_id page size t = take size (drop (page_offset page size) (logs_of_user user_id t))

unfoldable pub list_call_logs_by_user : ℤ → ℤ → ℤ → Action (List CallLog × ℕ)
list_call_logs_by_user user_id page page_size = do
  total ← read (λ t. ok (count_logs user_id t))
  items ←
      read (λ t. ok (page_of_logs user_id (normalize_page page) (normalize_page_size page_size) t))
  pure (items, total)
