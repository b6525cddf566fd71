-- ===== src/Auth/Tests.antt =====
-- Runs of cmd/auth/main.go at concrete inputs.
use go_drive_etl.Common.{true, false, [], ◌∷◌, Text, codes, ok, ◌++◌, ◌≡◌, ◌↔◌, refl}
use go_drive_etl.Auth.{
  Config, Token, entered, returned, success_answer, received, State, start_up, configure, callback,
  Steps, here, one_more, acts, answers, hands_over, shuts, shut, exchanged, request, after_exchange,
  token_lines, prompt, finished,
}
use go_drive_etl.Auth.Runs.{Told, prompted, run-Told}
use go_drive_etl.Auth.Blocking.{any_code, exchange_possible}

abbrev auth_code_url : Config → Text
auth_code_url conf = codes "https://accounts.example/auth?client_id=" ++ conf.client_id

abbrev token : Token
token = record { refresh_token = codes "1//r" }

abbrev code : Text
code = codes "4/0A"

-- A request brings a code, and its handler hands it over.
abbrev has_code : State
has_code = record {
  main = received code;
  listening = true;
  handlers = returned success_answer ∷ [];
  output = prompt (codes "https://accounts.example/auth?client_id=id");
  brought = code ∷ [];
  exchanges = [];
}

abbrev begun : State
begun = start_up auth_code_url (configure (codes "drive") (codes "id") (codes "secret"))

first_code : Steps begun has_code
unfolding start_up configure callback
first_code =
    one_more
      (one_more (one_more here (request _ code refl refl)) (acts (answers _ [] [] code refl refl)))
      (acts (hands_over _ [] [] code refl refl))

-- Then the server shuts down and the code is exchanged.
abbrev has_token : State
has_token = record has_code {
  main = finished;
  listening = false;
  output = prompt (codes "https://accounts.example/auth?client_id=id") ++ token_lines token;
  exchanges = (code, ok token) ∷ [];
}

until_token : Steps begun has_token
unfolding after_exchange
until_token =
    one_more
      (one_more (one_more first_code (acts (shuts _ code refl)))
        (acts (shut _ code refl (refl, tt))))
      (acts (exchanged _ code (ok token) refl))

run-Told_example :
    Told
      (prompted auth_code_url (configure (codes "drive") (codes "id") (codes "secret")))
      has_token
run-Told_example = run-Told auth_code_url (codes "drive") (codes "id") (codes "secret") until_token

-- The browser sends the code again before the server is shut down.
abbrev has_second : State
has_second = record has_code {
  handlers = returned success_answer ∷ entered code ∷ [];
  brought = code ∷ code ∷ [];
}

second_code : Steps begun has_second
second_code = one_more first_code (request _ code refl refl)

exchange_possible_example :
    ((s : State) × Steps has_second s × (s.exchanges ≡ (code, ok token) ∷ has_second.exchanges))
    ↔ (any_code has_second.handlers ≡ false)
exchange_possible_example = exchange_possible has_second code (ok token) refl
