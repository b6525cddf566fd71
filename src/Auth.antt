-- ===== src/Auth.antt =====
-- cmd/auth/main.go: the command that obtains a refresh token. `main` waits for the code of an
-- authorization, the handlers of `/callback` bring codes, and the server goroutine serves. A step
-- is one action of one of them. The state remembers the codes that requests brought and the
-- exchanges; the code does neither, and no step depends on it. The OAuth2 library and the HTTP
-- server are arguments and steps.
pub mod Runs
pub mod Blocking
mod Tests
use go_drive_etl.Common.{
  true, false, [], ◌∷◌, Text, codes, Bool, List, Error, Result, ok, err, message, wrapped, ◌++◌,
  ◌||◌, ◌≡◌, if◌then◌else◌, is_empty, All,
}

pub record Config : Type 0 where
  pub client_id : Text
  pub client_secret : Text
  pub redirect_url : Text
  pub scopes : List Text

pub record Token : Type 0 where
  pub refresh_token : Text

abbrev pub missing_credentials : Error
missing_credentials = message (codes "GOOGLE_CLIENT_ID と GOOGLE_CLIENT_SECRET を環境変数に設定してください。")

-- Up to the configuration: that of the two variables, or the error that ends the program.
unfoldable pub configure : Text → Text → Text → Result Config
configure drive_scope client_id client_secret =
    if is_empty client_id || is_empty client_secret
    then err missing_credentials
    else ok (record {
      client_id = client_id;
      client_secret = client_secret;
      redirect_url = codes "http://localhost:8080/callback";
      scopes = drive_scope ∷ [];
    })

-- A request of `/callback`: it came with a code, it wrote its answer and sends the code on the
-- channel, which holds none, or it returned with its answer.
pub data Handler : Type 0 where
  entered : Text → Handler
  sending : Text → Handler
  returned : Text → Handler

abbrev pub success_answer : Text
success_answer = codes "認証が成功しました！ターミナルに戻ってリフレッシュトークンを確認してください。このタブは閉じて構いません。"

abbrev pub failure_answer : Text
failure_answer = codes "コードの取得に失敗しました。"

-- The body of the handler, up to the send.
unfoldable pub callback : Text → Handler
callback code = if is_empty code then returned failure_answer else sending code

-- `main` waits for a code, has one, waits for `Shutdown`, exchanges the code, has shown the
-- token, or the program was ended by `log.Fatal`.
pub data Main : Type 0 where
  waiting : Main
  received : Text → Main
  shutting_down : Text → Main
  exchanging : Text → Main
  finished : Main
  exited : Error → Main

pub record State : Type 0 where
  pub main : Main
  pub listening : Bool
  pub handlers : List Handler
  pub output : List Text
  pub brought : List Text
  pub exchanges : List (Text × Result Token)

abbrev pub is_running : Main → Bool
is_running finished = false
is_running (exited e) = false
is_running _ = true

abbrev pub is_returned : Handler → Bool
is_returned (returned answer) = true
is_returned _ = false

abbrev pub prompt : Text → List Text
prompt auth_url =
    codes "以下のURLをブラウザで開き、認証を完了させてください:" ∷ (codes "\n" ++ auth_url ++ codes "\n\n") ∷ []

abbrev pub token_lines : Token → List Text
token_lines tok =
    codes "=================================================="
    ∷ codes "認証成功！以下のリフレッシュトークンを .env に設定してください。"
    ∷ (codes "GOOGLE_REFRESH_TOKEN=" ++ tok.refresh_token ++ codes "\n")
    ∷ codes "=================================================="
    ∷ []

abbrev ended_with : Error → State
ended_with e = record {
  main = exited e;
  listening = false;
  handlers = [];
  output = [];
  brought = [];
  exchanges = [];
}

abbrev serving : Text → State
serving auth_url = record {
  main = waiting;
  listening = true;
  handlers = [];
  output = prompt auth_url;
  brought = [];
  exchanges = [];
}

-- `main` up to `<-codeChan`, for the function `AuthCodeURL`.
unfoldable pub start_up : (Config → Text) → Result Config → State
start_up auth_code_url (err e) = ended_with e
start_up auth_code_url (ok conf) = serving (auth_code_url conf)

-- `main` from the result of the exchange on.
unfoldable pub after_exchange : Result Token → Text → State → State
after_exchange (err e) code s = record s {
  main = exited (wrapped (codes "トークンの交換に失敗しました: ") e);
  exchanges = (code, err e) ∷ s.exchanges;
}
after_exchange (ok tok) code s = record s {
  main = finished;
  output = s.output ++ token_lines tok;
  exchanges = (code, ok tok) ∷ s.exchanges;
}

-- What the program does.
pub data Act : State → State → Type 0 where
  answers :
      (s : State) (before after : List Handler) (code : Text)
      → is_running s.main ≡ true
      → s.handlers ≡ before ++ entered code ∷ after
      → Act s (record s { handlers = before ++ callback code ∷ after })
  hands_over :
      (s : State) (before after : List Handler) (code : Text)
      → s.main ≡ waiting
      → s.handlers ≡ before ++ sending code ∷ after
      → Act s
          (record s { main = received code; handlers = before ++ returned success_answer ∷ after })
  -- `srv.Shutdown` closes the listeners first, and then waits until no handler runs.
  shuts :
      (s : State) (code : Text)
      → s.main ≡ received code
      → Act s (record s { main = shutting_down code; listening = false })
  shut :
      (s : State) (code : Text)
      → s.main ≡ shutting_down code
      → All (λ h. is_returned h ≡ true) s.handlers
      → Act s (record s { main = exchanging code })
  exchanged :
      (s : State) (code : Text) (r : Result Token)
      → s.main ≡ exchanging code
      → Act s (after_exchange r code s)

-- What happens: that, a request while the server listens, or an error of the server.
pub data Step : State → State → Type 0 where
  acts : {s s' : State} → Act s s' → Step s s'
  request :
      (s : State) (code : Text)
      → is_running s.main ≡ true
      → s.listening ≡ true
      → Step s (record s { handlers = s.handlers ++ entered code ∷ []; brought = code ∷ s.brought })
  serving_fails :
      (s : State) (e : Error)
      → is_running s.main ≡ true
      → s.listening ≡ true
      → Step s (record s { main = exited (wrapped (codes "ローカルサーバーの起動に失敗: ") e) })

pub data Steps : State → State → Type 0 where
  here : {s : State} → Steps s s
  one_more : {s s' s'' : State} → Steps s s' → Step s' s'' → Steps s s''
