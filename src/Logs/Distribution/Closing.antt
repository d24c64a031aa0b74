-- ===== src/Logs/Distribution/Closing.antt =====
-- A follower that leaves twice.
use close.Prelude.{
  List, Option, [], ap, arith, false, false≢true, if◌then◌else◌, none, refl, some, subst, suc, sym,
  true, ℕ, ◌++◌, ◌<◌, ◌∙◌, ◌∷◌, ◌≡◌,
}
use close.Logs.Message.{LogMsg}
use close.Logs.Distribution.{
  Channel, Event, Logs, and_then, broadcast, change, close_channel, follows, new_channel, replay,
  run, send, step, unfollows, unlist, with_channels, writes,
}

-- Inversion of a step that did not panic.
pub and_then-some :
    {A B : Type 0} (o : Option A) (f : A → Option B) {b : B}
    → and_then o f ≡ some b
    → (a : A) × (o ≡ some a) × (f a ≡ some b)
unfolding and_then
and_then-some none f h = absurd (cc)
and_then-some (some a) f h = (a, refl, h)

abbrev SameClosed : (ℕ → Channel) → (ℕ → Channel) → Type 0
SameClosed before after = (i : ℕ) → (after i).closed ≡ (before i).closed

send-SameClosed :
    (msg : LogMsg) (c : ℕ) (channels after : ℕ → Channel)
    → send msg c channels ≡ some after
    → SameClosed channels after
unfolding send change
send-SameClosed msg c channels after =
    elim (channels c).closed
      as (λ t. (if t then none else some next) ≡ some after → SameClosed channels after) [
        | true ↦ (λ k. absurd (cc))
        | false ↦
            (λ k i. let q : next ≡ after = cc in ap (λ x. (x i).closed) (sym q) ∙ ground arith)
      ]
  where
    next : ℕ → Channel
    next = change c (record (channels c) { sent = (channels c).sent ++ msg ∷ [] }) channels

broadcast-SameClosed :
    (msg : LogMsg) (cs : List ℕ) (channels after : ℕ → Channel)
    → broadcast msg cs channels ≡ some after
    → SameClosed channels after
unfolding broadcast and_then
broadcast-SameClosed msg [] channels after h i =
    let q : channels ≡ after = cc in ap (λ x. (x i).closed) (sym q)
broadcast-SameClosed msg (c ∷ cs) channels after h i =
    let (next, k, g) = and_then-some (send msg c channels) (broadcast msg cs) h in
    broadcast-SameClosed msg cs next after g i ∙ send-SameClosed msg c channels next k i

replay-SameClosed :
    (msgs : List LogMsg) (c : ℕ) (channels after : ℕ → Channel)
    → replay msgs c channels ≡ some after
    → SameClosed channels after
unfolding replay and_then
replay-SameClosed [] c channels after h i =
    let q : channels ≡ after = cc in ap (λ x. (x i).closed) (sym q)
replay-SameClosed (msg ∷ msgs) c channels after h i =
    let (next, k, g) = and_then-some (send msg c channels) (replay msgs c) h in
    replay-SameClosed msgs c next after g i ∙ send-SameClosed msg c channels next k i

record HasLeft (c : ℕ) (s : Logs) : Type 0 where
  known : c < s.made
  shut : (s.channels c).closed ≡ true

close_channel-shut :
    (c i : ℕ) (channels after : ℕ → Channel)
    → close_channel i channels ≡ some after
    → (channels c).closed ≡ true
    → (after c).closed ≡ true
unfolding close_channel change
close_channel-shut c i channels after =
    elim (channels i).closed
      as (λ t.
        (if t then none else some next) ≡ some after
        → (channels c).closed ≡ true
        → (after c).closed ≡ true) [
          | true ↦ (λ k. absurd (cc))
          | false ↦ (λ k e.
              let q : next ≡ after = cc in ap (λ x. (x c).closed) (sym q) ∙ ground (arith, e))
        ]
  where
    next : ℕ → Channel
    next = change i (record (channels i) { closed = true }) channels

step-HasLeft : (c : ℕ) (e : Event) (s s' : Logs) → HasLeft c s → step s e ≡ some s' → HasLeft c s'
unfolding step and_then with_channels close_channel change
step-HasLeft c (writes msg) s s' w h =
    let left : Logs = record s { history = s.history ++ msg ∷ [] } in
    let (after, k, g) =
      and_then-some (broadcast msg s.subscribers s.channels)
        (λ channels. some (with_channels left channels)) h in
    let q : with_channels left after ≡ s' = cc in
    subst (HasLeft c) q (record {
      known = w.known;
      shut = broadcast-SameClosed msg s.subscribers s.channels after k c ∙ w.shut;
    })
step-HasLeft c follows s s' w h =
    let left : Logs = record s { subscribers = s.made ∷ s.subscribers; made = suc s.made } in
    let fresh = change s.made new_channel s.channels in
    let (after, k, g) =
      and_then-some (replay s.history s.made fresh) (λ channels. some (with_channels left channels))
        h in
    let q : with_channels left after ≡ s' = cc in
    subst (HasLeft c) q (record {
      known = omega (arith, w.known);
      shut = replay-SameClosed s.history s.made fresh after k c ∙ ground (arith, w.known, w.shut);
    })
step-HasLeft c (unfollows i) s s' w h =
    let left : Logs = record s { subscribers = unlist i s.subscribers } in
    let (after, k, g) =
      and_then-some (close_channel i s.channels) (λ channels. some (with_channels left channels))
        h in
    let q : with_channels left after ≡ s' = cc in
    subst (HasLeft c) q
      (record { known = w.known; shut = close_channel-shut c i s.channels after k w.shut })

run-HasLeft :
    (c : ℕ) (es : List Event) (s : Logs) → HasLeft c s → run s (es ++ unfollows c ∷ []) ≡ none
unfolding run and_then step close_channel
run-HasLeft c [] s w =
    elim (s.channels c).closed
        as (λ t. (s.channels c).closed ≡ t → run s (unfollows c ∷ []) ≡ none) [
          | true ↦ (λ e. rw e)
          | false ↦ (λ e. absurd (false≢true (sym e ∙ w.shut)))
        ]
      refl
run-HasLeft c (e ∷ es) s w =
    go (step s e) refl (λ t k. run-HasLeft c es t (step-HasLeft c e s t w k))
  where
    go :
        (o : Option Logs)
        → step s e ≡ o
        → ((t : Logs) → step s e ≡ some t → run t (es ++ unfollows c ∷ []) ≡ none)
        → and_then o (λ t. run t (es ++ unfollows c ∷ [])) ≡ none
    go none k f = refl
    go (some t) k f = f t k

-- A follower that leaves a second time, as its reader and its writer may both make it do, panics the
-- goroutine of all logs, whatever happens in between.
pub second_unfollow_panics :
    (c : ℕ) (es : List Event) (s : Logs)
    → c < s.made
    → run s (unfollows c ∷ es ++ unfollows c ∷ []) ≡ none
unfolding run and_then step close_channel with_channels change
second_unfollow_panics c es s h =
    elim (s.channels c).closed
      as (λ t.
        and_then
          (and_then (if t then none else some closing)
            (λ channels. some (with_channels left channels)))
          (λ t. run t (es ++ unfollows c ∷ []))
        ≡ none) [
          | true ↦ refl
          | false ↦
              run-HasLeft c es (with_channels left closing)
                (record { known = h; shut = ground arith })
        ]
  where
    left : Logs
    left = record s { subscribers = unlist c s.subscribers }

    closing : ℕ → Channel
    closing = change c (record (s.channels c) { closed = true }) s.channels
