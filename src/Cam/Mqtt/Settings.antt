-- ===== src/Cam/Mqtt/Settings.antt =====
-- The camera settings that a message "CAM:KEY:VALUE" reaches.
use iot_repo.Base.{
  ℕ, ◌≡◌, ◌∙◌, refl, ap, sym, subst, Bool, true, false, Bool-cases, inl, inr, List, [], ◌∷◌, ◌++◌,
  Option, none, some, ==_iff, length, leb, ◌==◌,
}
use iot_repo.Base.Int.{ℤ}
use iot_repo.Base.Atoi.{atoi}
use iot_repo.Base.Text.{Bytes, codes, bytes_eq, bytes_eq_sound}
use iot_repo.Cam.Mqtt.{
  Setting, quality, key, settings, split_cons, split_colon, find_setting, with_value, parse_setting,
  handle_camera_command,
}

-- Every setting is reached by its key, with the number that its value spells.
pub handle_camera_command_complete :
    (s : Setting) (value : Bytes)
    → handle_camera_command true (codes (key s) ++ b':' ∷ value) ≡ some (s, atoi value)
unfolding handle_camera_command
handle_camera_command_complete quality value = refl
handle_camera_command_complete _ value = refl

some_inj {ℓ} : {A : Type ℓ} {a c : A} → some a ≡ some c → a ≡ c
some_inj h = cc

none-some {ℓ} : {A : Type ℓ} {a : A} → none ≡ some a → ⊥
none-some h = cc

split_cons_sound :
    (c : ℕ) (r : Option (Bytes × Bytes)) (s k v : Bytes)
    → ((k' v' : Bytes) → r ≡ some (k', v') → s ≡ k' ++ b':' ∷ v')
    → split_cons c r ≡ some (k, v)
    → c ∷ s ≡ k ++ b':' ∷ v
split_cons_sound c none s k v ih h = cc
split_cons_sound c (some (k', v')) s k v ih h =
    subst (λ (p : Bytes × Bytes). c ∷ s ≡ p.0 ++ b':' ∷ p.1) (some_inj h)
      (ap (◌∷◌ c) (ih k' v' refl))

split_colon_sound : (cmd k v : Bytes) → split_colon cmd ≡ some (k, v) → cmd ≡ k ++ b':' ∷ v
unfolding split_colon
split_colon_sound [] k v h = cc
split_colon_sound (c ∷ s) k v h = elim (Bool-cases (c == b':')) [
  | inl colon ↦
      subst (λ (p : Bytes × Bytes). c ∷ s ≡ p.0 ++ b':' ∷ p.1) (some_inj (rw colon at h))
        (ap (λ d. d ∷ s) ((==_iff c b':').0 colon))
  | inr other ↦ split_cons_sound c (split_colon s) s k v (split_colon_sound s) (rw other at h)
]

find_setting_sound :
    (k : Bytes) (l : List Setting) (s : Setting) → find_setting k l ≡ some s → k ≡ codes (key s)
unfolding find_setting
find_setting_sound k [] s h = cc
find_setting_sound k (t ∷ l) s h = elim (Bool-cases (bytes_eq k (codes (key t)))) [
  | inl hit ↦
      bytes_eq_sound k (codes (key t)) hit ∙ ap (λ x. codes (key x)) (some_inj (rw hit at h))
  | inr miss ↦ find_setting_sound k l s (rw miss at h)
]

with_value_sound :
    (value : Bytes) (o : Option Setting) (s : Setting) (v : ℤ)
    → with_value value o ≡ some (s, v)
    → (o ≡ some s) × (v ≡ atoi value)
with_value_sound value none s v h = cc
with_value_sound value (some t) s v h =
    let e = some_inj h in
    (ap (λ (p : Setting × ℤ). some p.0) e, sym (ap (λ (p : Setting × ℤ). p.1) e))

parse_setting_sound :
    (r : Option (Bytes × Bytes)) (s : Setting) (v : ℤ)
    → parse_setting r ≡ some (s, v)
    → (k : Bytes) × (value : Bytes) × (r ≡ some (k, value)) × (k ≡ codes (key s)) × (v ≡ atoi value)
parse_setting_sound none s v h = cc
parse_setting_sound (some (k, value)) s v h = elim (Bool-cases (leb 32 (length k))) [
  | inl long ↦ absurd (none-some (rw long at h))
  | inr short ↦
      let (found, exact) = with_value_sound value (find_setting k settings) s v (rw short at h) in
      (k, value, refl, find_setting_sound k settings s found, exact)
]

-- A command that reaches the sensor is the key of the setting, a colon and a text whose number is
-- the value, and there is a sensor.
pub handle_camera_command_sound :
    (has_sensor : Bool) (cmd : Bytes) (s : Setting) (v : ℤ)
    → handle_camera_command has_sensor cmd ≡ some (s, v)
    → (value : Bytes) × (has_sensor ≡ true)
      × (cmd ≡ codes (key s) ++ b':' ∷ value)
      × (v ≡ atoi value)
unfolding handle_camera_command
handle_camera_command_sound false cmd s v h = cc
handle_camera_command_sound true cmd s v h =
    let (k, value, split, is_key, exact) = parse_setting_sound (split_colon cmd) s v h in
    (value, refl, split_colon_sound cmd k value split ∙ ap (λ x. x ++ b':' ∷ value) is_key, exact)
