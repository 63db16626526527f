-- ===== src/Client/Forms.antt =====
-- The forms of the client for registration (client/register.c) and login (client/login.c). What is typed is a line with
-- its newline, as `read` returns it into an array of 20 bytes.
use netdisk.Prelude.{
  ℕ, true, false, [], ◌∷◌, ◌++◌, Option, none, some, ◌&&◌, if◌then◌else◌, length, ltb,
}
use netdisk.Wire.{Text, TransFile}
use netdisk.Tool.Space.{space, newline}
use netdisk.Client.Strtok.{strtok}

-- the size of the arrays `account` and `password`
abbrev pub form_size : ℕ
form_size = 20

-- `account[strlen(account) - 1] = '\0'`; for an empty text the byte lies before the array
abbrev pub cut_newline : Text → Option Text
cut_newline [] = none
cut_newline (c ∷ []) = some []
cut_newline (c ∷ d ∷ s) = elim (cut_newline (d ∷ s)) [ none ↦ none | some t ↦ some (c ∷ t) ]

abbrev pub login_train : (account password : Text) → TransFile
login_train account password =
    let line = account ++ space ∷ password in
    record { body = line; data_length = length line; command_no = 1; flag = false; token = [] }

-- The request of `login`. A line that fills its array has no closing 0.
unfoldable pub login_request : (account password : Text) → Option TransFile
login_request account password =
    if ltb (length account) form_size && ltb (length password) form_size
    then (elim (cut_newline account) [
      | none ↦ none
      | some act ↦ elim (cut_newline password) [
        | none ↦ none
        | some psw ↦ some (login_train act psw)
      ]
    ])
    else none

abbrev pub register_train : (client_info : Text) → TransFile
register_train client_info = record {
  body = client_info;
  data_length = length client_info;
  command_no = 0;
  flag = true;
  token = [];
}

-- The request of `register_client`. Name, space and password are joined in the array of the name.
unfoldable pub register_request : (account password : Text) → Option TransFile
register_request account password = elim (strtok newline account) [
  | none ↦ none
  | some (act, _) ↦ elim (strtok newline password) [
    | none ↦ none
    | some (psw, _) ↦
        if ltb (length (act ++ space ∷ psw)) form_size
        then some (register_train (act ++ space ∷ psw))
        else none
  ]
]
