-- ===== src/Auth/Sample.antt =====
-- Libraries for the tests: nothing is changed by a hash or an encoding.
use teri_chat.Prelude.{true, some}
use teri_chat.Prelude.Text.{text_eq}
use teri_chat.Auth.Schema.{Libraries}

abbrev pub toy : Libraries
toy = record {
  lowercase = λ s. s;
  argon2 = λ password salt. some password;
  parses_as_hash = λ hash. true;
  matches_hash = λ hash password. text_eq hash password;
  encode = λ raw. raw;
  sha256 = λ token. token;
  parses_as_key = λ key. true;
}
