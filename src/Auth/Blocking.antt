-- ===== src/Auth/Blocking.antt =====
-- The shutdown of the local server in cmd/auth/main.go, where a second request brings a code.
use mathlib.Core.Path.{subst}
use go_drive_etl.Common.{
  none, some, Option, ap, true, false, [], ◌∷◌, Text, Bool, Bool-cases, List, Error, Result, ok,
  err, not, ◌++◌, ◌||◌, append_assoc, append-nil, length, ◌≡◌, ◌≢◌, ◌⊎◌, ◌↔◌, inl, inr, refl, sym,
  ◌∙◌, is_empty, All, All-append, arith,
}
use go_drive_etl.Auth.{
  Token, Handler, entered, sending, returned, failure_answer, callback, Main, waiting, received,
  shutting_down, exchanging, finished, exited, State, is_running, is_returned, after_exchange, Act,
  answers, hands_over, shuts, shut, exchanged, Step, acts, request, serving_fails, Steps, here,
  one_more,
}

-- A handler that brings a code, whether or not it came to send it.
abbrev pub brings_code : Handler → Bool
brings_code (entered code) = not (is_empty code)
brings_code (sending code) = true
brings_code (returned answer) = false

unfoldable pub any_code : List Handler → Bool
any_code [] = false
any_code (h ∷ handlers) = brings_code h || any_code handlers

any_code-append :
    (before : List Handler) (h : Handler) (after : List Handler)
    → any_code (before ++ h ∷ after) ≡ (brings_code h || (any_code before || any_code after))
unfolding any_code
any_code-append [] h after = ground arith
any_code-append (g ∷ before) h after = ground (arith, any_code-append before h after)

any_code-returned :
    (handlers : List Handler) → All (λ h. is_returned h ≡ true) handlers → any_code handlers ≡ false
unfolding any_code
any_code-returned [] all = refl
any_code-returned (returned answer ∷ handlers) (_, all) = any_code-returned handlers all
any_code-returned (entered code ∷ handlers) (h, all) = cc
any_code-returned (sending code ∷ handlers) (h, all) = cc

brings_code-callback : (code : Text) → brings_code (callback code) ≡ not (is_empty code)
unfolding callback
brings_code-callback code = ground arith

-- The code that `main` has, where `Shutdown` did not return.
abbrev pub received_code : Main → Option Text
received_code (received code) = some code
received_code (shutting_down code) = some code
received_code _ = none

-- It stays there, or the server failed.
IsBlocked : Text → State → Type 0
IsBlocked code s =
    ((received_code s.main ≡ some code) × (any_code s.handlers ≡ true))
    ⊎ ((e : Error) × (s.main ≡ exited e))

ended-running : {A : Type 0} (m : Main) (e : Error) → m ≡ exited e → is_running m ≡ true → A
ended-running m e out live = let bad : false ≡ true = rw out at live in cc

no_code :
    {A : Type 0} (m m' : Main) (code : Text)
    → m ≡ m'
    → received_code m' ≡ none
    → received_code m ≡ some code
    → A
no_code m m' code e none_there got = cc

module _ (c : Text) where
  Act-IsBlocked :
      {s s' : State} → Act s s' → IsBlocked c s → IsBlocked c s' × (s'.exchanges ≡ s.exchanges)
  unfolding IsBlocked
  Act-IsBlocked (answers s before after code live e) (inl (got, any)) = (
    inl (
      got,
      any_code-append before (callback code) after
          ∙ ground (
            arith,
            any,
            ap any_code e,
            any_code-append before (entered code) after,
            brings_code-callback code,
          ),
    ),
    refl,
  )
  Act-IsBlocked (hands_over s before after code e h) (inl (got, any)) =
      no_code s.main waiting c e refl got
  Act-IsBlocked (shuts s code e) (inl (got, any)) =
      (inl (sym (ap received_code e) ∙ got, any), refl)
  Act-IsBlocked (shut s code e all) (inl (got, any)) =
      absurd (cc (any, any_code-returned s.handlers all))
  Act-IsBlocked (exchanged s code r e) (inl (got, any)) =
      no_code s.main (exchanging code) c e refl got
  Act-IsBlocked (answers s before after code live e) (inr (x, out)) =
      ended-running s.main x out live
  Act-IsBlocked (hands_over s before after code e h) (inr (x, out)) = cc
  Act-IsBlocked (shuts s code e) (inr (x, out)) = cc
  Act-IsBlocked (shut s code e all) (inr (x, out)) = cc
  Act-IsBlocked (exchanged s code r e) (inr (x, out)) = cc

  Step-IsBlocked :
      {s s' : State} → Step s s' → IsBlocked c s → IsBlocked c s' × (s'.exchanges ≡ s.exchanges)
  unfolding IsBlocked
  Step-IsBlocked (acts a) b = Act-IsBlocked a b
  Step-IsBlocked (request s code live listens) (inl (got, any)) =
      (inl (got, any_code-append s.handlers (entered code) [] ∙ ground (arith, any)), refl)
  Step-IsBlocked (request s code live listens) (inr (x, out)) = ended-running s.main x out live
  Step-IsBlocked (serving_fails s e live listens) b = (inr (_, refl), refl)

  Steps-IsBlocked :
      {s s' : State} → Steps s s' → IsBlocked c s → IsBlocked c s' × (s'.exchanges ≡ s.exchanges)
  Steps-IsBlocked here b = (b, refl)
  Steps-IsBlocked (one_more steps step) b =
      let (b', same) = Steps-IsBlocked steps b in
      let (b'', same') = Step-IsBlocked step b' in (b'', same' ∙ same)

callback_empty : (code : Text) → is_empty code ≡ true → callback code ≡ returned failure_answer
unfolding callback
callback_empty code h = rw h refl

-- Where no handler brings a code, all of them return.
drain :
    (s₀ s : State) (before after : List Handler)
    → Steps s₀ s
    → is_running s.main ≡ true
    → s.handlers ≡ before ++ after
    → All (λ h. is_returned h ≡ true) before
    → any_code after ≡ false
    → (s' : State) × Steps s₀ s'
      × (s'.main ≡ s.main)
      × (s'.exchanges ≡ s.exchanges)
      × All (λ h. is_returned h ≡ true) s'.handlers
unfolding any_code
drain s₀ s before [] steps live e all none_left = (
  s,
  steps,
  refl,
  refl,
  subst (All (λ h. is_returned h ≡ true)) (sym (e ∙ append-nil before)) all,
)
drain s₀ s before (returned answer ∷ after) steps live e all none_left =
    drain s₀ s (before ++ returned answer ∷ []) after steps live (e ∙ rw append_assoc)
      (All-append _ before (returned answer ∷ []) all (refl, tt)) none_left
drain s₀ s before (entered code ∷ after) steps live e all none_left =
    let empty : is_empty code ≡ true = ground (arith, none_left) in
    drain s₀ (record s { handlers = before ++ callback code ∷ after })
      (before ++ returned failure_answer ∷ []) after
      (one_more steps (acts (answers s before after code live e))) live
      (ap (λ h. before ++ h ∷ after) (callback_empty code empty) ∙ rw append_assoc)
      (All-append _ before (returned failure_answer ∷ []) all (refl, tt))
      (ground (arith, none_left))
drain s₀ s before (sending code ∷ after) steps live e all none_left = cc

exchanges-after_exchange :
    (r : Result Token) (code : Text) (s : State)
    → (after_exchange r code s).exchanges ≡ (code, r) ∷ s.exchanges
unfolding after_exchange
exchanges-after_exchange (err e) code s = refl
exchanges-after_exchange (ok tok) code s = refl

-- From the call of `Shutdown` on.
shutdown_returns :
    (s₀ s : State) (code : Text) (r : Result Token)
    → Steps s₀ s
    → s.main ≡ shutting_down code
    → any_code s.handlers ≡ false
    → (s' : State) × Steps s₀ s' × (s'.exchanges ≡ (code, r) ∷ s.exchanges)
shutdown_returns s₀ s code r steps e none_left =
    let (t, more, same, kept, all) = drain s₀ s [] s.handlers steps (rw e refl) refl tt none_left in
    let t' = record t { main = exchanging code } in
    (
      after_exchange r code t',
      one_more (one_more more (acts (shut t code (same ∙ e) all)))
          (acts (exchanged t' code r refl)),
      exchanges-after_exchange r code t' ∙ ap (λ x. (code, r) ∷ x) kept,
    )

main_cases :
    (m : Main) (code : Text)
    → received_code m ≡ some code
    → (m ≡ received code) ⊎ (m ≡ shutting_down code)
main_cases waiting code h = cc
main_cases (received c) code h = inl cc
main_cases (shutting_down c) code h = inr cc
main_cases (exchanging c) code h = cc
main_cases finished code h = cc
main_cases (exited e) code h = cc

can_exchange :
    (s : State) (code : Text) (r : Result Token)
    → (s.main ≡ received code) ⊎ (s.main ≡ shutting_down code)
    → any_code s.handlers ≡ false
    → (s' : State) × Steps s s' × (s'.exchanges ≡ (code, r) ∷ s.exchanges)
can_exchange s code r (inr e) none_left = shutdown_returns s s code r here e none_left
can_exchange s code r (inl e) none_left =
    shutdown_returns s (record s { main = shutting_down code; listening = false }) code r
      (one_more here (acts (shuts s code e))) refl none_left

cannot_exchange :
    (s s' : State) (code : Text) (r : Result Token)
    → received_code s.main ≡ some code
    → any_code s.handlers ≡ true
    → Steps s s'
    → s'.exchanges ≢ (code, r) ∷ s.exchanges
unfolding IsBlocked
cannot_exchange s s' code r got any steps h =
    let (_, same) = Steps-IsBlocked code steps (inl (got, any)) in
    absurd (omega (arith, ap length (sym h ∙ same)))

-- After the receipt of a code and before `Shutdown` returns, the command can still come to
-- exchange the code, with whatever result, exactly if none of the requests that it is answering
-- brings a code. One that does waits for ever for a receiver, and `Shutdown` waits for it.
pub exchange_possible :
    (s : State) (code : Text) (r : Result Token)
    → received_code s.main ≡ some code
    → ((s' : State) × Steps s s' × (s'.exchanges ≡ (code, r) ∷ s.exchanges))
      ↔ (any_code s.handlers ≡ false)
exchange_possible s code r got = (
  λ (s', steps, h). elim (Bool-cases (any_code s.handlers)) [
    | inl any ↦ absurd (cannot_exchange s s' code r got any steps h)
    | inr none_left ↦ none_left
  ],
  λ none_left. can_exchange s code r (main_cases s.main code got) none_left,
)
