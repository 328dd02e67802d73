-- ===== src/Server/Totals.antt =====
-- Rows of processes beside their orders.
use iot_repo.Base.{
  ℕ, ◌≤◌, ◌≡◌, refl, ◌∙◌, subst, Bool-cases, inl, inr, List, [], ◌∷◌, Option, none, some, ◌==◌, All,
  arith,
}
use iot_repo.Base.Text.{Bytes}
use iot_repo.Server.{ProcessRow, OrderRow}
use iot_repo.Server.Processes.{
  get_process, save_process, is_running, get_order_row, order_total, pause_running, pause_other,
  classified_total,
}
use iot_repo.Server.Orders.{save_status, new_process}

-- The process is of an order, and not more is counted than that has.
abbrev pub Fits : List OrderRow → ProcessRow → Type 0
Fits orders p = (t : ℕ) × ((order_total p.order_id orders ≡ some t) × (classified_total p ≤ t))

module _ {κ} (P : ProcessRow → Type κ) where
  pub All-get_process :
      (pid : ℕ) (ps : List ProcessRow) (p : ProcessRow)
      → All P ps
      → get_process pid ps ≡ some p
      → P p
  unfolding get_process
  All-get_process pid [] p h e = cc
  All-get_process pid (q ∷ ps) p (a, h) e = elim (Bool-cases (q.process_id == pid)) [
    | inl same ↦ subst P (ground (arith, e, same)) a
    | inr other ↦ All-get_process pid ps p h (ground (arith, e, other))
  ]

  pub All-save_process :
      (pid : ℕ) (q : ProcessRow) (ps : List ProcessRow)
      → P q
      → All P ps
      → All P (save_process pid q ps)
  unfolding save_process
  All-save_process pid q [] b h = tt
  All-save_process pid q (p ∷ ps) b (a, h) = elim (Bool-cases (p.process_id == pid)) [
    | inl same ↦ rw same (b, h)
    | inr other ↦ rw other (a, All-save_process pid q ps b h)
  ]

All-pause_running :
    (orders : List OrderRow) (now : ℕ) (ps : List ProcessRow)
    → All (Fits orders) ps
    → All (Fits orders) (pause_running now ps)
unfolding pause_running
All-pause_running orders now [] h = tt
All-pause_running orders now (p ∷ ps) (a, h) = elim (Bool-cases (is_running p.status)) [
  | inl runs ↦ rw runs (a, h)
  | inr waits ↦ rw waits (a, All-pause_running orders now ps h)
]

pub All-pause_other :
    (orders : List OrderRow) (pid now : ℕ) (o : Option ProcessRow) (ps : List ProcessRow)
    → All (Fits orders) ps
    → All (Fits orders) (pause_other pid now o ps)
All-pause_other orders pid now none ps h = h
All-pause_other orders pid now (some r) ps h = elim (Bool-cases (r.process_id == pid)) [
  | inl same ↦ rw same h
  | inr other ↦ rw other (All-pause_running orders now ps h)
]

-- The status of an order is not in its total.
order_total-save_status :
    (oid k : ℕ) (status : Bytes) (orders : List OrderRow)
    → order_total oid (save_status k status orders) ≡ order_total oid orders
unfolding order_total save_status get_order_row
order_total-save_status oid k status [] = refl
order_total-save_status oid k status (o ∷ os) =
    let rest = order_total-save_status oid k status os in
    elim (Bool-cases (o.order_id == k)) [
      | inl same ↦ rw same (elim (Bool-cases (o.order_id == oid)) [
        | inl it ↦ rw it refl
        | inr not_it ↦ rw not_it refl
      ])
      | inr other ↦ rw other (elim (Bool-cases (o.order_id == oid)) [
        | inl it ↦ rw it refl
        | inr not_it ↦ rw not_it rest
      ])
    ]

pub All-save_status :
    (k : ℕ) (status : Bytes) (orders : List OrderRow) (ps : List ProcessRow)
    → All (Fits orders) ps
    → All (Fits (save_status k status orders)) ps
All-save_status k status orders [] h = tt
All-save_status k status orders (p ∷ ps) ((t, (e, b)), h) = (
  (t, (order_total-save_status p.order_id k status orders ∙ e, b)),
  All-save_status k status orders ps h,
)

-- A new process is of the order that is delivered.
pub new_process-Fits :
    (pid oid : ℕ) (o : OrderRow) (orders : List OrderRow)
    → get_order_row oid orders ≡ some o
    → Fits orders (new_process pid oid)
unfolding order_total
new_process-Fits pid oid o orders e = rw e (_, (refl, omega arith))
