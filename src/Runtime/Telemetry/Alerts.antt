-- ===== src/Runtime/Telemetry/Alerts.antt =====
-- The times of alerts under one key.
use polymarket_signal_autopi.Base.{
  ◌≡◌, refl, sym, ap, subst, ◌∙◌, inl, inr, Bool, true, false, ◌&&◌, String, Option, none, some,
  List, [], ◌∷◌, ◌≤ℤ◌, Time, Duration, since, lookup, insert, lookup-insert, ◌==◌, text_eq,
  if◌then◌else◌, arith, Bool-cases,
}
use polymarket_signal_autopi.Text.{Runes}
use polymarket_signal_autopi.Runtime.Telemetry.Defs.{
  OpsAlertManager, emits, emit, normalize_metric_label,
}

-- A call of `Emit`: the key, whether the notifier succeeds, and the time.
pub record Call : Type 0 where
  pub key : String
  pub sends : Bool
  pub now : Time

-- Each time is at least the cooldown after the one before, the first after the last one known.
unfoldable pub Spaced : Duration → Option Time → List Time → Type 0
Spaced cooldown last [] = Unit
Spaced cooldown none (t ∷ ts) = Spaced cooldown (some t) ts
Spaced cooldown (some last) (t ∷ ts) = (cooldown ≤ℤ since t last) × Spaced cooldown (some t) ts

pub Spaced-next :
    (cooldown : Duration) (o : Option Time) (t : Time) (ts : List Time)
    → ((last : Time) → o ≡ some last → cooldown ≤ℤ since t last)
    → Spaced cooldown (some t) ts
    → Spaced cooldown o (t ∷ ts)
unfolding Spaced
Spaced-next cooldown none t ts h s = s
Spaced-next cooldown (some last) t ts h s = (h last refl, s)

module _ ⦃u : Runes⦄ where
  -- The times at which alerts under a label were sent with success.
  pub sent : String → OpsAlertManager → List Call → List Time
  sent label m [] = []
  sent label m (c ∷ cs) =
      let r = emit m c.key c.sends c.now in
      let rest = sent label r.0 cs in
      elim r.1 [ none ↦ rest | some key ↦ if c.sends && key == label then c.now ∷ rest else rest ]

  -- What a call adds to the times under a label.
  abbrev sent_by : String → Call → List Call → OpsAlertManager × Option String → List Time
  sent_by label c cs r = elim r.1 [
    | none ↦ sent label r.0 cs
    | some key ↦ if c.sends && key == label then c.now ∷ sent label r.0 cs else sent label r.0 cs
  ]

  emits-rested :
      (m : OpsAlertManager) (rate_key : String) (now last : Time)
      → emits m rate_key now ≡ true
      → lookup rate_key m.last_sent ≡ some last
      → m.cooldown ≤ℤ since now last
  unfolding emits
  emits-rested m rate_key now last h e = ground arith

  module _ (m : OpsAlertManager) (key : String) (now : Time) where
    emit-quiet :
        (sends : Bool)
        → emits m (normalize_metric_label key) now ≡ false
        → emit m key sends now ≡ (m, none)
    unfolding emit
    emit-quiet sends h = rw h

    emit-failed :
        emits m (normalize_metric_label key) now ≡ true
        → emit m key false now ≡ (m, some (normalize_metric_label key))
    unfolding emit
    emit-failed h = rw h

    emit-sends :
        emits m (normalize_metric_label key) now ≡ true
        → emit m key true now ≡ (
          record m { last_sent = insert (normalize_metric_label key) now m.last_sent },
          some (normalize_metric_label key),
        )
    unfolding emit
    emit-sends h = rw h

  -- A call whose alert is sent: the times go on from it, if it is under the label.
  Spaced-sent :
      (label rate_key : String) (m : OpsAlertManager) (now : Time) (ts : List Time)
      → emits m rate_key now ≡ true
      → Spaced m.cooldown (lookup label (insert rate_key now m.last_sent)) ts
      → Spaced m.cooldown (lookup label m.last_sent) (if rate_key == label then now ∷ ts else ts)
  Spaced-sent label rate_key m now ts loud rest =
      let found = lookup-insert rate_key label now m.last_sent in
      elim (Bool-cases (rate_key == label)) [
        | inr other ↦ rw other (rw (found, other) at rest)
        | inl same ↦ rw same (
            Spaced-next m.cooldown (lookup label m.last_sent) now ts
              (λ last e.
                emits-rested m rate_key now last loud
                  (ap (λ k. lookup k m.last_sent) ((text_eq.same_iff rate_key label).0 same) ∙ e))
              (rw (found, same) at rest))
      ]

  sent_by-Spaced :
      (label : String) (m : OpsAlertManager) (c : Call) (cs : List Call)
      → ((n : OpsAlertManager) → Spaced n.cooldown (lookup label n.last_sent) (sent label n cs))
      → Spaced m.cooldown
          (lookup label m.last_sent)
          (sent_by label c cs (emit m c.key c.sends c.now))
  sent_by-Spaced label m c cs ih =
      let rate_key = normalize_metric_label c.key in
      let m' : OpsAlertManager = record m { last_sent = insert rate_key c.now m.last_sent } in
      elim (Bool-cases (emits m rate_key c.now)) [
        | inr quiet ↦
            subst (λ r. Spaced m.cooldown (lookup label m.last_sent) (sent_by label c cs r))
              (sym (emit-quiet m c.key c.now c.sends quiet)) (ih m)
        | inl loud ↦
            elim c.sends
              as (λ b.
                Spaced m.cooldown (lookup label m.last_sent)
                  (sent_by label (record c { sends = b }) cs (emit m c.key b c.now))) [
                    | false ↦
                        subst
                          (λ r.
                            Spaced m.cooldown (lookup label m.last_sent)
                              (sent_by label (record c { sends = false }) cs r))
                          (sym (emit-failed m c.key c.now loud)) (ih m)
                    | true ↦
                        subst
                          (λ r.
                            Spaced m.cooldown (lookup label m.last_sent)
                              (sent_by label (record c { sends = true }) cs r))
                          (sym (emit-sends m c.key c.now loud))
                          (Spaced-sent label rate_key m c.now (sent label m' cs) loud (ih m'))
                  ]
      ]

  -- Whatever is emitted, and whatever the clock says: the alerts that are sent under one label are at
  -- least the cooldown apart, and from the last one before.
  pub sent-Spaced :
      (label : String) (m : OpsAlertManager) (cs : List Call)
      → Spaced m.cooldown (lookup label m.last_sent) (sent label m cs)
  unfolding sent Spaced
  sent-Spaced label m [] = tt
  sent-Spaced label m (c ∷ cs) = sent_by-Spaced label m c cs (λ n. sent-Spaced label n cs)
