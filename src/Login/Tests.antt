-- ===== src/Login/Tests.antt =====
-- What the server reads of a request to log in.
use netdisk.Prelude.{◌≡◌, refl, none, some, codes}
use netdisk.Tool.Space.{remove_space}
use netdisk.Tool.Argument.{splite_argument}
use netdisk.Login.{user_log_info}

words : user_log_info (codes "ann  secret") ≡ some (codes "ann", codes "secret")
unfolding user_log_info remove_space splite_argument
words = refl

one_word : user_log_info (codes "ann") ≡ none
unfolding user_log_info remove_space splite_argument
one_word = refl
