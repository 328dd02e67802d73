-- ===== src/Server/Processes.antt =====
-- soy-server/app/services/processes.py: processes listed, started, stopped and counted.
use iot_repo.Base.{
  ℕ, ◌+◌, Bool, true, false, List, [], ◌∷◌, Option, none, some, ltb, ◌==◌, if◌then◌else◌, map,
}
use iot_repo.Base.Int.{ℤ, pos_part}
use iot_repo.Server.{
  ProcessStatus, running, paused, ProcessRow, OrderItem, OrderRow, Db, process_not_found,
  process_qty_exceeds_order_total, Outcome, returned, raised, RequestBody,
}

-- session.get(Process, process_id).
unfoldable pub get_process : ℕ → List ProcessRow → Option ProcessRow
get_process pid [] = none
get_process pid (p ∷ ps) =
    let rest = get_process pid ps in if p.process_id == pid then some p else rest

-- What the flush writes of that row.
unfoldable pub save_process : ℕ → ProcessRow → List ProcessRow → List ProcessRow
save_process pid q [] = []
save_process pid q (p ∷ ps) =
    let rest = save_process pid q ps in if p.process_id == pid then q ∷ ps else p ∷ rest

-- session.get(Order, order_id).
unfoldable pub get_order_row : ℕ → List OrderRow → Option OrderRow
get_order_row oid [] = none
get_order_row oid (o ∷ os) =
    let rest = get_order_row oid os in if o.order_id == oid then some o else rest

unfoldable pub sum_expected : List OrderItem → ℕ
sum_expected [] = 0
sum_expected (i ∷ is) = i.expected_qty + sum_expected is

abbrev pub total_of_order : Option OrderRow → Option ℕ
total_of_order none = none
total_of_order (some o) = some (sum_expected o.order_items)

-- The bottles of an order, of none where there is no such order.
unfoldable pub order_total : ℕ → List OrderRow → Option ℕ
unfolding get_order_row sum_expected
order_total oid orders = total_of_order (get_order_row oid orders)

abbrev pub total_or_0 : Option ℕ → ℕ
total_or_0 none = 0
total_or_0 (some n) = n

unfoldable pub list_processes : Db → List (ProcessRow × ℕ)
unfolding order_total
list_processes db = map (λ p. (p, total_or_0 (order_total p.order_id db.orders))) db.processes

abbrev pub is_running : ProcessStatus → Bool
is_running running = true
is_running _ = false

-- _get_running_process.
unfoldable pub get_running_process : List ProcessRow → Option ProcessRow
get_running_process [] = none
get_running_process (p ∷ ps) =
    let rest = get_running_process ps in if is_running p.status then some p else rest

abbrev pub paused_at : ℕ → ProcessRow → ProcessRow
paused_at now p = record p { status = paused; end_time = some now }

-- That process paused in place.
unfoldable pub pause_running : ℕ → List ProcessRow → List ProcessRow
pause_running now [] = []
pause_running now (p ∷ ps) =
    let rest = pause_running now ps in
    if is_running p.status then paused_at now p ∷ ps else p ∷ rest

abbrev pub pause_other : ℕ → ℕ → Option ProcessRow → List ProcessRow → List ProcessRow
pause_other pid now none ps = ps
pause_other pid now (some r) ps = if r.process_id == pid then ps else pause_running now ps

abbrev pub or_now : ℕ → Option ℕ → Option ℕ
or_now now none = some now
or_now now (some t) = some t

abbrev pub started_at : ℕ → ProcessRow → ProcessRow
started_at now p = record p {
  start_time = or_now now p.start_time;
  status = running;
  end_time = none;
}

abbrev pub start_found : ℕ → ℕ → Db → Option ProcessRow → Outcome ProcessRow
start_found pid now db none = raised process_not_found
start_found pid now db (some p) = returned (started_at now p) (record db {
  processes =
      save_process pid (started_at now p)
        (pause_other pid now (get_running_process db.processes) db.processes);
})

unfoldable pub start_process : ℕ → ℕ → Db → Outcome ProcessRow
unfolding get_process get_running_process pause_running save_process
start_process pid now db = start_found pid now db (get_process pid db.processes)

abbrev pub stop_found : ℕ → ℕ → Db → Option ProcessRow → Outcome ProcessRow
stop_found pid now db none = raised process_not_found
stop_found pid now db (some p) =
    returned (paused_at now p)
      (record db { processes = save_process pid (paused_at now p) db.processes })

unfoldable pub stop_process : ℕ → ℕ → Db → Outcome ProcessRow
unfolding get_process save_process
stop_process pid now db = stop_found pid now db (get_process pid db.processes)

-- max(0, qty), and the old count where the field is missing.
abbrev pub new_qty : Option ℤ → ℕ → ℕ
new_qty none old = old
new_qty (some q) old = pos_part q

abbrev pub counted : RequestBody → ProcessRow → ProcessRow
counted body p = record p {
  success_1l_qty = new_qty body.success_1l_qty p.success_1l_qty;
  success_2l_qty = new_qty body.success_2l_qty p.success_2l_qty;
  unclassified_qty = new_qty body.unclassified_qty p.unclassified_qty;
}

abbrev pub classified_total : ProcessRow → ℕ
classified_total p = p.success_1l_qty + p.success_2l_qty + p.unclassified_qty

-- Where there is no such order nothing is checked.
abbrev pub exceeds : ProcessRow → Option ℕ → Bool
exceeds p none = false
exceeds p (some total) = ltb total (classified_total p)

abbrev pub update_found : ℕ → RequestBody → Db → Option ProcessRow → Outcome ProcessRow
update_found pid body db none = raised process_not_found
update_found pid body db (some p) =
    let q = counted body p in
    if exceeds q (order_total q.order_id db.orders)
    then raised process_qty_exceeds_order_total
    else returned q (record db { processes = save_process pid q db.processes })

unfoldable pub update_process : ℕ → RequestBody → Db → Outcome ProcessRow
unfolding get_process save_process order_total
update_process pid body db = update_found pid body db (get_process pid db.processes)
