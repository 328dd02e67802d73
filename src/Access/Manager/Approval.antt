-- ===== src/Access/Manager/Approval.antt =====
-- The door and the node over any sequence of cards and seconds.
use iot_repo.Base.{
  ℕ, suc, ◌+◌, ◌-◌, ◌<◌, ◌≡◌, ◌⊎◌, refl, ◌∙◌, sym, ap, subst, Bool, true, false, inl, inr,
  Bool-cases, List, [], ◌∷◌, ◌++◌, Option, none, some, ltb, ltb→lt, arith,
}
use iot_repo.Base.Text.{Bytes}
use iot_repo.Access.{
  Door, uid_str, led_state, timer_callback, door_service_callback, rfid_callback_entrance,
  rfid_callback_exit,
}
use iot_repo.Access.Closing.{
  Agrees, count_down-Agrees, door_service_callback-Agrees, count_down_lem,
}
use iot_repo.Access.Manager.{
  Reply, no_reply, reply, Direction, enter, leave, Site, RfidAuthManager, FactoryEvent, second,
  card_at, published_at, served, call_door_service, entrance_reply, exit_reply, handle_card,
  when_alive, spin_once, factory_step, factory_run,
}

lit_count : (x : Door) → Agrees x → x.led ≡ true → 0 < x.door_open_countdown
lit_count x a lit = ltb→lt 0 x.door_open_countdown (sym a.lamp ∙ lit)

module _ (w : Site) where
  -- That many seconds ago, the node was spinning and the server approved the card that was there.
  pub data Approved : ℕ → List FactoryEvent → Type 0 where
    approves :
        {d : Direction} {sn : ℕ → ℕ} {es : List FactoryEvent}
        → (factory_run w es).manager.alive ≡ true
        → w.request_tcp_server (factory_run w es).manager.calls (uid_str sn) d ≡ reply true
        → Approved 0 (card_at d sn ∷ es)
    other_card :
        {n : ℕ} {d : Direction} {sn : ℕ → ℕ} {es : List FactoryEvent}
        → Approved n es
        → Approved n (card_at d sn ∷ es)
    passes : {n : ℕ} {es : List FactoryEvent} → Approved n es → Approved (suc n) (second ∷ es)

  -- What is called behind a reply: nothing, or behind an approval the opening.
  Opens : Option Bool → Bool → Reply → Type 0
  Opens o alive r = (o ≡ none) ⊎ ((o ≡ some true) × ((alive ≡ true) × (r ≡ reply true)))

  called-Opens : (m : RfidAuthManager) → Opens (call_door_service w true m).1 true (reply true)
  unfolding call_door_service Opens
  called-Opens m = elim (Bool-cases (w.wait_for_service m.calls)) [
    | inl there ↦ rw there (inr (refl, (refl, refl)))
    | inr gone ↦ rw gone (inl refl)
  ]

  entrance_reply-Opens : (r : Reply) (m : RfidAuthManager) → Opens (entrance_reply w r m).1 true r
  unfolding Opens
  entrance_reply-Opens no_reply m = inl refl
  entrance_reply-Opens (reply true) m = called-Opens m
  entrance_reply-Opens (reply false) m = inl refl

  exit_reply-Opens : (r : Reply) (m : RfidAuthManager) → Opens (exit_reply w r m).1 true r
  unfolding Opens
  exit_reply-Opens no_reply m = inl refl
  exit_reply-Opens (reply true) m = called-Opens m
  exit_reply-Opens (reply false) m = inl refl

  when_alive-Opens :
      (alive : Bool) (d : Direction) (uid : Bytes) (m : RfidAuthManager)
      → Opens (when_alive w alive d uid m).1 alive (w.request_tcp_server m.calls uid d)
  unfolding handle_card
  when_alive-Opens false d uid m = unfold Opens in inl refl
  when_alive-Opens true enter uid m =
      entrance_reply-Opens (w.request_tcp_server m.calls uid enter)
        (record m { calls = m.calls + 1 })
  when_alive-Opens true leave uid m =
      exit_reply-Opens (w.request_tcp_server m.calls uid leave) (record m { calls = m.calls + 1 })

  published_at-Agrees :
      (d : Direction) (sn : ℕ → ℕ) (x : Door) → Agrees x → Agrees (published_at d sn x)
  unfolding rfid_callback_entrance rfid_callback_exit
  published_at-Agrees enter sn x a = record { short = a.short; lamp = a.lamp; servo = a.servo }
  published_at-Agrees leave sn x a = record { short = a.short; lamp = a.lamp; servo = a.servo }

  served-Agrees : (o : Option Bool) (x : Door) → Agrees x → Agrees (served o x)
  served-Agrees none x a = a
  served-Agrees (some wanted) x a = door_service_callback-Agrees wanted x

  factory_run-Agrees : (es : List FactoryEvent) → Agrees (factory_run w es).door
  unfolding factory_run factory_step timer_callback
  factory_run-Agrees [] = record { short = omega arith; lamp = refl; servo = refl }
  factory_run-Agrees (second ∷ es) =
      let a = factory_run-Agrees es in
      count_down-Agrees _ (record { short = a.short; lamp = a.lamp; servo = a.servo })
  factory_run-Agrees (card_at d sn ∷ es) =
      let f = factory_run w es in
      served-Agrees (spin_once w d (uid_str sn) f.manager).1 (published_at d sn f.door)
        (published_at-Agrees d sn f.door (factory_run-Agrees es))

  -- Seconds are left to count only behind an approval.
  Left : ℕ → List FactoryEvent → Type 0
  Left left es = (left ≡ 0) ⊎ ((n : ℕ) × (Approved n es × (left + n ≡ 5)))

  second-Left : (left : ℕ) (es : List FactoryEvent) → Left left es → Left (left - 1) (second ∷ es)
  unfolding Left
  second-Left left es (inl none_left) = inl (omega (arith, none_left))
  second-Left left es (inr (n, (a, e))) = elim (Bool-cases (ltb 1 left)) [
    | inl more ↦ inr (suc n, (passes a, grind (arith, ltb→lt 1 left more, e)))
    | inr last ↦ inl (ground arith)
  ]

  kept :
      (left : ℕ) (d : Direction) (sn : ℕ → ℕ) (es : List FactoryEvent)
      → Left left es
      → Left left (card_at d sn ∷ es)
  unfolding Left
  kept left d sn es (inl none_left) = inl none_left
  kept left d sn es (inr (n, (a, e))) = inr (n, (other_card a, e))

  countdown-published_at :
      (d : Direction) (sn : ℕ → ℕ) (x : Door)
      → (published_at d sn x).door_open_countdown ≡ x.door_open_countdown
  unfolding rfid_callback_entrance rfid_callback_exit
  countdown-published_at enter sn x = refl
  countdown-published_at leave sn x = refl

  served-Left :
      (d : Direction) (sn : ℕ → ℕ) (es : List FactoryEvent) (o : Option Bool)
      → Opens o
          (factory_run w es).manager.alive
          (w.request_tcp_server (factory_run w es).manager.calls (uid_str sn) d)
      → Left (factory_run w es).door.door_open_countdown es
      → Left
          (served o (published_at d sn (factory_run w es).door)).door_open_countdown
          (card_at d sn ∷ es)
  unfolding Opens Left
  served-Left d sn es o (inl nothing) h =
      subst
        (λ c.
          Left (served c (published_at d sn (factory_run w es).door)).door_open_countdown
            (card_at d sn ∷ es))
        (sym nothing)
        (subst (λ c. Left c (card_at d sn ∷ es))
          (sym (countdown-published_at d sn (factory_run w es).door)) (kept _ d sn es h))
  served-Left d sn es o (inr (opens, (alive, approved))) h =
      subst
        (λ c.
          Left (served c (published_at d sn (factory_run w es).door)).door_open_countdown
            (card_at d sn ∷ es))
        (sym opens) (inr (0, (approves alive approved, unfold door_service_callback in refl)))

  factory_run-Left : (es : List FactoryEvent) → Left (factory_run w es).door.door_open_countdown es
  unfolding factory_run factory_step timer_callback
  factory_run-Left [] = unfold Left in inl refl
  factory_run-Left (second ∷ es) =
      let x = (factory_run w es).door in
      subst (λ c. Left c (second ∷ es))
        (sym (
          count_down_lem
            (record x { published = led_state (w.gpio_get_level x.led) ∷ x.published })))
        (second-Left x.door_open_countdown es (factory_run-Left es))
  factory_run-Left (card_at d sn ∷ es) =
      let f = factory_run w es in
      served-Left d sn es (spin_once w d (uid_str sn) f.manager).1
        (unfold spin_once in when_alive-Opens f.manager.alive d (uid_str sn) f.manager)
        (factory_run-Left es)

  lit_by :
      (x : Door) (es : List FactoryEvent)
      → Agrees x
      → Left x.door_open_countdown es
      → x.led ≡ true
      → (n : ℕ) × ((n < 5) × Approved n es)
  unfolding Left
  lit_by x es a (inl none_left) lit = absurd (omega (arith, none_left, lit_count x a lit))
  lit_by x es a (inr (n, (approved, e))) lit = (n, (omega (arith, e, lit_count x a lit), approved))

  -- Whatever cards and seconds come, when the door stands open then, less than five seconds of the
  -- timer ago, a card was at a reader while the node was spinning and the server's answer for its
  -- text and direction was an approval.
  pub led-factory_run :
      (es : List FactoryEvent)
      → (factory_run w es).door.led ≡ true
      → (n : ℕ) × ((n < 5) × Approved n es)
  led-factory_run es lit =
      lit_by (factory_run w es).door es (factory_run-Agrees es) (factory_run-Left es) lit

  -- A node that does not spin hears nothing more.
  stays_silent :
      (later es : List FactoryEvent)
      → (factory_run w es).manager.alive ≡ false
      → (factory_run w (later ++ es)).manager.alive ≡ false
  unfolding factory_run factory_step spin_once
  stays_silent [] es dead = dead
  stays_silent (second ∷ later) es dead = stays_silent later es dead
  stays_silent (card_at d sn ∷ later) es dead =
      let m = (factory_run w (later ++ es)).manager in
      let silent : m.alive ≡ false = stays_silent later es dead in
      subst (λ t. (when_alive w t d (uid_str sn) m).0.alive ≡ false) (sym silent) silent

  unanswered :
      (uid : Bytes) (alive : Bool) (m : RfidAuthManager)
      → m.alive ≡ alive
      → w.request_tcp_server m.calls uid enter ≡ no_reply
      → (when_alive w alive enter uid m).0.alive ≡ false
  unfolding handle_card
  unanswered uid true m e lost = rw lost refl
  unanswered uid false m e lost = e

  -- Behind a card at the entrance for which the server does not answer, whatever cards and seconds
  -- come after it, a card changes nothing of the node and has it call nothing.
  pub spin_once_silenced :
      (later es : List FactoryEvent) (sn : ℕ → ℕ) (d : Direction) (uid : Bytes)
      → w.request_tcp_server (factory_run w es).manager.calls (uid_str sn) enter ≡ no_reply
      → let m = (factory_run w (later ++ (card_at enter sn ∷ es))).manager in
        spin_once w d uid m ≡ (m, none)
  unfolding factory_run factory_step spin_once
  spin_once_silenced later es sn d uid lost =
      let m = (factory_run w (later ++ (card_at enter sn ∷ es))).manager in
      let f = factory_run w es in
      let dead : m.alive ≡ false =
        stays_silent later (card_at enter sn ∷ es)
          (unanswered (uid_str sn) f.manager.alive f.manager refl lost) in
      ap (λ t. when_alive w t d uid m) dead
