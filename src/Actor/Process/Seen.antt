-- ===== src/Actor/Process/Seen.antt =====
-- actor/process.go: what a receiver has seen of the messages, and at which of them it crashes.
use distributed_framework.Actor.Messages.{
  failure, initialized, started, stopped, pill, user, Message, Envelope, ReceiveFunc, Act, handled,
  is_pill,
}
use distributed_framework.Actor.Process.Ran.{Handles, Crashes, handled_of}
use distributed_framework.Common.{
  ℕ, ◌+◌, ◌≡◌, ◌∙◌, refl, true, false, Bool, List, [], ◌∷◌, ◌++◌, map, All, Option, none, some,
  nat_keys, string_keys, sym, ap, ap₂, append_assoc, if◌then◌else◌,
}

unfoldable pub is_user : {U : Type 0} → Message U → Bool
is_user (user u) = true
is_user _ = false

module _ {U : Type 0} where
  unfoldable pub seen_in : Act U → List (Envelope U)
  unfolding is_user
  seen_in (handled m s) = if is_user m then record { msg = m; sender = s } ∷ [] else []
  seen_in _ = []

  -- The users' messages among those that the receiver was called with.
  unfoldable pub seen : List (Act U) → List (Envelope U)
  unfolding seen_in
  seen [] = []
  seen (a ∷ l) = seen_in a ++ seen l

  pub seen_nil : seen [] ≡ []
  unfolding seen
  seen_nil = refl

  pub seen-append : (l l' : List (Act U)) → seen (l ++ l') ≡ seen l ++ seen l'
  unfolding seen
  seen-append [] l' = refl
  seen-append (a ∷ l) l' =
      ap (λ t. seen_in a ++ t) (seen-append l l')
      ∙ sym (append_assoc (seen_in a) (seen l) (seen l'))

  pub seen-handled :
      (msgs : List (Envelope U))
      → All (λ m. is_user m.msg ≡ true) msgs
      → seen (map handled_of msgs) ≡ msgs
  unfolding seen seen_in
  seen-handled [] t = refl
  seen-handled (m ∷ msgs) (h, t) = rw h (ap (λ l. m ∷ l) (seen-handled msgs t))

  -- What the receiver has seen when the process restarts.
  pub seen-crash :
      (l rest : List (Act U)) (pre : List (Envelope U)) (bad : Envelope U)
      → All (λ m. is_user m.msg ≡ true) pre
      → is_user bad.msg ≡ true
      → seen rest ≡ []
      → seen ((l ++ map handled_of pre) ++ handled_of bad ∷ rest) ≡ (seen l ++ pre) ++ bad ∷ []
  unfolding seen seen_in
  seen-crash l rest pre bad t h e =
      seen-append (l ++ map handled_of pre) (handled_of bad ∷ rest)
      ∙ ap₂ (λ a b. a ++ b)
          (seen-append l (map handled_of pre) ∙ ap (λ a. seen l ++ a) (seen-handled pre t))
          (rw h (ap (λ a. bad ∷ a) e))

  -- How many messages of the list crash, where `crashes` gives the values of the panics.
  unfoldable pub crash_count : (Envelope U → Option ℕ) → List (Envelope U) → ℕ
  crash_count crashes [] = 0
  crash_count crashes (m ∷ msgs) =
      elim (crashes m) [ none ↦ 0 | some _ ↦ 1 ] + crash_count crashes msgs

  -- The receive function returns at the message, or panics with this value.
  abbrev pub Does : {R : Type 0} → ReceiveFunc R U → Message U → Option ℕ → Type 0
  Does f m none = Handles f m
  Does f m (some n) = Crashes f m (failure n)

  -- A user's message at which the receive function returns or panics as `crashes` says.
  abbrev pub Behaves :
      {R : Type 0} → ReceiveFunc R U → (Envelope U → Option ℕ) → Envelope U → Type 0
  Behaves f crashes m = (is_user m.msg ≡ true) × Does f m.msg (crashes m)

  pub user-plain : (m : Message U) → is_user m ≡ true → is_pill m ≡ false
  unfolding is_user is_pill
  user-plain (user u) h = refl
  user-plain initialized h = refl
  user-plain started h = refl
  user-plain stopped h = refl
  user-plain (pill c g) h = sym h
