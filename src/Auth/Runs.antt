-- ===== src/Auth/Runs.antt =====
-- What the command of cmd/auth/main.go exchanges and shows, over all its runs.
use mathlib.Core.Path.{subst}
use mathlib.Core.List.{Mem, mem-cons_self, mem-cons_of_mem}
use go_drive_etl.Common.{
  true, false, [], ◌∷◌, Text, Bool-cases, List, Result, ok, err, ◌++◌, append-nil, ◌≡◌, ◌≢◌, ◌⊎◌,
  inl, inr, refl, is_empty, All, All-at, All-replace, All-append, All-map,
}
use go_drive_etl.Auth.{
  Config, Token, Handler, entered, sending, returned, callback, Main, waiting, received,
  shutting_down, exchanging, finished, exited, State, is_running, prompt, token_lines, start_up,
  after_exchange, Act, answers, hands_over, shuts, shut, exchanged, Step, acts, request,
  serving_fails, Steps, here, one_more, configure,
}

-- A code that a request brought.
abbrev pub Brought : List Text → Text → Type 0
Brought codes code = (is_empty code ≡ false) × Mem code codes

abbrev Waits : List Text → Handler → Type 0
Waits codes (entered code) = Mem code codes
Waits codes (sending code) = Brought codes code
Waits codes (returned answer) = Unit

abbrev HasCode : List Text → Main → Type 0
HasCode codes waiting = Unit
HasCode codes (received code) = Brought codes code
HasCode codes (shutting_down code) = Brought codes code
HasCode codes (exchanging code) = Brought codes code
HasCode codes finished = Unit
HasCode codes (exited e) = Unit

Waits-more :
    (code : Text) (codes : List Text) (h : Handler) → Waits codes h → Waits (code ∷ codes) h
Waits-more code codes (entered c) m = mem-cons_of_mem code m
Waits-more code codes (sending c) (n, m) = (n, mem-cons_of_mem code m)
Waits-more code codes (returned answer) m = tt

HasCode-more :
    (code : Text) (codes : List Text) (m : Main) → HasCode codes m → HasCode (code ∷ codes) m
HasCode-more code codes waiting m = tt
HasCode-more code codes (received c) (n, m) = (n, mem-cons_of_mem code m)
HasCode-more code codes (shutting_down c) (n, m) = (n, mem-cons_of_mem code m)
HasCode-more code codes (exchanging c) (n, m) = (n, mem-cons_of_mem code m)
HasCode-more code codes finished m = tt
HasCode-more code codes (exited e) m = tt

Waits-callback : (codes : List Text) (code : Text) → Mem code codes → Waits codes (callback code)
unfolding callback
Waits-callback codes code m = elim (Bool-cases (is_empty code)) [
  | inl empty ↦ rw empty tt
  | inr full ↦ rw full (full, m)
]

-- The lines before the code is awaited.
abbrev pub prompted : (Config → Text) → Result Config → List Text
prompted auth_code_url (err e) = []
prompted auth_code_url (ok conf) = prompt (auth_code_url conf)

-- What the result of an exchange shows.
abbrev pub shown : Result Token → List Text
shown (err e) = []
shown (ok tok) = token_lines tok

-- No code was exchanged and no token is shown, or one code was, that a request brought, and what
-- is shown is its token.
abbrev pub Told : List Text → State → Type 0
Told lines s =
    ((s.exchanges ≡ []) × (s.output ≡ lines) × (s.main ≢ finished))
    ⊎ ((code : Text) × (r : Result Token) × (s.exchanges ≡ (code, r) ∷ [])
        × Brought s.brought code
        × (s.output ≡ lines ++ shown r))

record IsAuthorised (lines : List Text) (s : State) : Type 0 where
  handlers_wait : All (Waits s.brought) s.handlers
  has_code : HasCode s.brought s.main
  quiet : is_running s.main ≡ true → (s.exchanges ≡ []) × (s.output ≡ lines)
  told : Told lines s

start_up-IsAuthorised :
    (auth_code_url : Config → Text) (r : Result Config)
    → IsAuthorised (prompted auth_code_url r) (start_up auth_code_url r)
unfolding start_up
start_up-IsAuthorised auth_code_url (err e) = record {
  handlers_wait = tt;
  has_code = tt;
  quiet = λ h. cc;
  told = inl (refl, refl, λ h. cc);
}
start_up-IsAuthorised auth_code_url (ok conf) = record {
  handlers_wait = tt;
  has_code = tt;
  quiet = λ h. (refl, refl);
  told = inl (refl, refl, λ h. cc);
}

module _ (lines : List Text) where
  Act-IsAuthorised : {s s' : State} → Act s s' → IsAuthorised lines s → IsAuthorised lines s'
  Act-IsAuthorised (answers s before after code live e) v =
      let waits = subst (All (Waits s.brought)) e v.handlers_wait in
      record {
        handlers_wait =
            All-replace (Waits s.brought) before (entered code) (callback code) after waits (
              Waits-callback s.brought code
                (All-at (Waits s.brought) before (entered code) after waits));
        has_code = v.has_code;
        quiet = v.quiet;
        told = v.told;
      }
  Act-IsAuthorised (hands_over s before after code e h) v =
      let waits = subst (All (Waits s.brought)) h v.handlers_wait in
      let (none_yet, same) = v.quiet (rw e refl) in
      record {
        handlers_wait = All-replace (Waits s.brought) before (sending code) _ after waits tt;
        has_code = All-at (Waits s.brought) before (sending code) after waits;
        quiet = λ _. (none_yet, same);
        told = inl (none_yet, same, λ x. cc);
      }
  Act-IsAuthorised (shuts s code e) v =
      let (none_yet, same) = v.quiet (rw e refl) in
      record {
        handlers_wait = v.handlers_wait;
        has_code = subst (HasCode s.brought) e v.has_code;
        quiet = λ _. (none_yet, same);
        told = inl (none_yet, same, λ x. cc);
      }
  Act-IsAuthorised (shut s code e all) v =
      let (none_yet, same) = v.quiet (rw e refl) in
      record {
        handlers_wait = v.handlers_wait;
        has_code = subst (HasCode s.brought) e v.has_code;
        quiet = λ _. (none_yet, same);
        told = inl (none_yet, same, λ x. cc);
      }
  Act-IsAuthorised (exchanged s code (err x) e) v =
      let (none_yet, same) = v.quiet (rw e refl) in
      unfold after_exchange in
      record {
        handlers_wait = v.handlers_wait;
        has_code = tt;
        quiet = λ h. cc;
        told = inr (
          code,
          err x,
          rw none_yet refl,
          subst (HasCode s.brought) e v.has_code,
          rw append-nil same,
        );
      }
  Act-IsAuthorised (exchanged s code (ok tok) e) v =
      let (none_yet, same) = v.quiet (rw e refl) in
      unfold after_exchange in
      record {
        handlers_wait = v.handlers_wait;
        has_code = tt;
        quiet = λ h. cc;
        told =
            inr (
              code,
              ok tok,
              rw none_yet refl,
              subst (HasCode s.brought) e v.has_code,
              rw same refl,
            );
      }

  Step-IsAuthorised : {s s' : State} → Step s s' → IsAuthorised lines s → IsAuthorised lines s'
  Step-IsAuthorised (acts a) v = Act-IsAuthorised a v
  Step-IsAuthorised (request s code live listens) v =
      let (none_yet, same) = v.quiet live in
      record {
        handlers_wait =
            All-append (Waits (code ∷ s.brought)) s.handlers (entered code ∷ [])
              (All-map (Waits-more code s.brought) s.handlers v.handlers_wait) (mem-cons_self, tt);
        has_code = HasCode-more code s.brought s.main v.has_code;
        quiet = v.quiet;
        told = inl (none_yet, same, λ x. cc);
      }
  Step-IsAuthorised (serving_fails s e live listens) v =
      let (none_yet, same) = v.quiet live in
      record {
        handlers_wait = v.handlers_wait;
        has_code = tt;
        quiet = λ h. cc;
        told = inl (none_yet, same, λ x. cc);
      }

  Steps-IsAuthorised : {s s' : State} → Steps s s' → IsAuthorised lines s → IsAuthorised lines s'
  Steps-IsAuthorised here v = v
  Steps-IsAuthorised (one_more steps step) v = Step-IsAuthorised step (Steps-IsAuthorised steps v)

-- On every run of the command, whatever requests come and whatever the services reply, at most
-- one code is exchanged, it is not empty and a request brought it. The lines that are shown are
-- those before the wait for a code, and behind them, where an exchange succeeded, those of the
-- token that it gave.
pub run-Told :
    (auth_code_url : Config → Text) (drive_scope client_id client_secret : Text) {s : State}
    → Steps (start_up auth_code_url (configure drive_scope client_id client_secret)) s
    → Told (prompted auth_code_url (configure drive_scope client_id client_secret)) s
run-Told auth_code_url drive_scope client_id client_secret steps =
    let conf = configure drive_scope client_id client_secret in
    let v =
      Steps-IsAuthorised (prompted auth_code_url conf) steps
        (start_up-IsAuthorised auth_code_url conf) in
    v.told
