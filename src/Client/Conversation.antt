-- ===== src/Client/Conversation.antt =====
-- A client's session, from the menu to the end of the input, as a conversation with the server: every request is
-- answered by `serve_request` before the next one.
use netdisk.Prelude.{
  ℕ, ◌≡◌, refl, true, false, List, [], ◌∷◌, ◌++◌, map, Option, some, codes, arith,
}
use netdisk.Wire.{Text, TransFile}
use netdisk.Tool.FileName.{is_nil}
use netdisk.Tool.UserPath.{TokenInfo}
use netdisk.Catalog.Directory.{Collation}
use netdisk.Token.{Jwt}
use netdisk.Login.{Crypt}
use netdisk.Command.{parse}
use netdisk.Worker.Dispatch.{World, Input, Reply, serve_request}
use netdisk.Client.{refused, asks, starts, execute_command}
use netdisk.Client.Framed.{last_token, body_of}
use netdisk.Client.Answer.{execute_command-serve_request}
use netdisk.Client.Forms.{login_request, register_request}
use netdisk.Client.Menu.{
  Line, current, Choice, chooses, menu, typed_command, Done, command_loop, client_main, Line,
  current,
}

module _ (sql : Collation) (page : ℕ) (stat : Text → Option ℕ) (bcrypt : Crypt) (jwt : Jwt)
    (key : Text) where
  -- the answer of a worker, at some time, with some salt and the worker's old token information
  abbrev pub Answers : World → TransFile → Reply → Type 0
  Answers w trans r =
      (now : ℕ) × (rand_str : Text) × (token : TokenInfo) × (input : Input) × (serve_request sql
          page stat bcrypt jwt key now rand_str w trans token input
        ≡ some r)

  -- The commands: the token, the lines typed, the messages that come, what is done and the last token. The
  -- threads of transfers write the token as they like. The tables and files of the server are at each request what other clients and transfers made of them.
  pub data Talk : Text → List Line → List TransFile → List Done → Text → Type 0 where
    end : {token : Text} → Talk token [] [] [] token
    wrong :
        {token token' line command : Text} {written : Option Text} {typed : List Line}
        {stream : List TransFile} {done : List Done}
        → typed_command line ≡ some command
        → execute_command (current token written) command ≡ refused
        → Talk (current token written) typed stream done token'
        → Talk token ((line, written) ∷ typed) stream ((refused, []) ∷ done) token'
    transfer :
        {token token' line command : Text} {written : Option Text} {typed : List Line}
        {stream : List TransFile} {done : List Done} (trans : TransFile)
        → typed_command line ≡ some command
        → execute_command (current token written) command ≡ starts trans
        → Talk (current token written) typed stream done token'
        → Talk token ((line, written) ∷ typed) stream ((starts trans, []) ∷ done) token'
    ask :
        {token token' line command : Text} {written : Option Text} {typed : List Line}
        {stream : List TransFile} {done : List Done} (w : World) (trans : TransFile)
        (cmd argument : Text) (r : Reply)
        → typed_command line ≡ some command
        → execute_command (current token written) command ≡ asks trans
        → is_nil trans.token ≡ false
        → parse trans.data_length trans.body ≡ some (cmd, argument)
        → Answers w trans r
        → Talk (last_token r.sent) typed stream done token'
        → Talk token
            ((line, written) ∷ typed)
            (r.sent ++ stream)
            ((asks trans, map body_of r.sent) ∷ done)
            token'

  -- The menu, and the commands behind it.
  pub data Visit : List Choice → List Line → List TransFile → List Done → Text → Type 0 where
    again :
        {c : Choice} {choices : List Choice} {typed : List Line} {stream : List TransFile}
        {done : List Done} {token' : Text}
        → chooses (codes "1") c ≡ false
        → chooses (codes "2") c ≡ false
        → Visit choices typed stream done token'
        → Visit (c ∷ choices) typed stream done token'
    register :
        {c : Choice} {choices : List Choice} {typed : List Line} {stream : List TransFile}
        {done : List Done} {token' : Text} (w : World) (trans m : TransFile) (r : Reply)
        → chooses (codes "1") c ≡ false
        → chooses (codes "2") c ≡ true
        → register_request c.account c.password ≡ some trans
        → Answers w trans r
        → r.sent ≡ m ∷ []
        → Visit choices typed stream done token'
        → Visit (c ∷ choices) typed (m ∷ stream) done token'
    reject :
        {c : Choice} {choices : List Choice} {typed : List Line} {stream : List TransFile}
        {done : List Done} {token' : Text} (w : World) (trans m : TransFile) (r : Reply)
        → chooses (codes "1") c ≡ true
        → login_request c.account c.password ≡ some trans
        → Answers w trans r
        → r.sent ≡ m ∷ []
        → m.flag ≡ false
        → Visit choices typed stream done token'
        → Visit (c ∷ choices) typed (m ∷ stream) done token'
    enter :
        {c : Choice} {choices : List Choice} {typed : List Line} {stream : List TransFile}
        {done : List Done} {token' : Text} (w : World) (trans m : TransFile) (r : Reply)
        → chooses (codes "1") c ≡ true
        → login_request c.account c.password ≡ some trans
        → Answers w trans r
        → r.sent ≡ m ∷ []
        → m.flag ≡ true
        → Talk m.token typed stream done token'
        → Visit (c ∷ choices) typed (m ∷ stream) done token'

  Talk-command_loop :
      {token token' : Text} {typed : List Line} {stream : List TransFile} {done : List Done}
      → Talk token typed stream done token'
      → command_loop token typed stream ≡ some (done, token')
  unfolding command_loop
  Talk-command_loop end = refl
  Talk-command_loop (wrong t e k) = ground (arith, t, e, Talk-command_loop k)
  Talk-command_loop (transfer trans t e k) = ground (arith, t, e, Talk-command_loop k)
  Talk-command_loop {token = token} {stream = stream}
        (ask {command = command} {written = written} {stream = later} w trans cmd argument r t e
          some_token parsed
          (now, rand_str, info, input, served)
          k) =
      ground (
        arith,
        t,
        e,
        Talk-command_loop k,
        execute_command-serve_request sql page stat bcrypt jwt key now rand_str w trans info input r
            (current token written) command cmd argument later e some_token parsed served,
      )

  -- The client's program, from the menu to the end of the input, on the messages that the server sends over the
  -- connection one after the other, in a session in which each choice that logs in or registers is answered
  -- with one message, the menu ends with the login whose answer has the flag, and each line behind it is refused,
  -- a transfer, or a request with a token from which the server reads a command and which it answers:
  -- it prints for each request the messages of its answer and no others, and sends with each line the token written last:
  -- by a transfer, if one wrote since the last message was read, or else that of the last message, first of the login.
  pub client_main-Visit :
      {choices : List Choice} {typed : List Line} {stream : List TransFile} {done : List Done}
      {token' : Text}
      → Visit choices typed stream done token'
      → client_main choices typed stream ≡ some (done, token')
  unfolding client_main menu
  client_main-Visit (again a b k) = ground (arith, a, b, client_main-Visit k)
  client_main-Visit (register w trans m r a b e s one k) =
      ground (arith, a, b, e, client_main-Visit k)
  client_main-Visit (reject w trans m r a e s one f k) =
      ground (arith, a, e, f, client_main-Visit k)
  client_main-Visit (enter w trans m r a e s one f k) = ground (arith, a, e, f, Talk-command_loop k)
