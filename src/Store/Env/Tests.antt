-- ===== src/Store/Env/Tests.antt =====
-- The environments of secrets.go and of the editor on concrete texts.
use space_elevator.Base.{◌≡◌, refl, true, [], ◌∷◌, Bytes, bytes, trim_space, split, join}
use space_elevator.Store.Apps.{valid_env_key, valid_env}
use space_elevator.Store.Env.{
  Env, put, parse_entry, parse_line, cut, trim_cr, parse_kv_lines, parse_arg, parse_kv_args,
  sort_entries, bytes_le, format_env,
}
use space_elevator.Store.Env.Maps.{get}
use space_elevator.Store.Env.RoundTrip.{parse_kv_lines-format_env}

abbrev settings : Env
settings = (bytes "PORT", bytes "80") ∷ (bytes "MODE", bytes "a=b c") ∷ (bytes "DEBUG", []) ∷ []

settings_text : format_env settings ≡ bytes "DEBUG=\nMODE=a=b c\nPORT=80"
unfolding format_env sort_entries bytes_le join
settings_text = refl

-- The key is trimmed, the last value of a key stays, an empty line is no line.
parse_kv_lines_form :
    parse_kv_lines (bytes " A =1\r\n\nA= 2 \n2B=x\nC")
    ≡ ((bytes "A", bytes " 2") ∷ [], bytes "2B=x" ∷ bytes "C" ∷ [])
unfolding parse_kv_lines parse_line parse_entry split cut trim_cr trim_space valid_env_key put
parse_kv_lines_form = refl

parse_kv_args_flags :
    parse_kv_args (bytes "A= 1 " ∷ bytes "B" ∷ []) ≡ ((bytes "A", bytes " 1 ") ∷ [], bytes "B" ∷ [])
unfolding parse_kv_args parse_arg parse_entry cut trim_space valid_env_key put
parse_kv_args_flags = refl

-- What UpdateAppEnv takes and the editor does not give back.
abbrev two_lines : Env
two_lines = (bytes "KEY", bytes "a\nb ") ∷ []

valid_two_lines : valid_env two_lines ≡ true
unfolding valid_env
valid_two_lines = refl

editor_two_lines :
    parse_kv_lines (format_env two_lines) ≡ ((bytes "KEY", bytes "a") ∷ [], bytes "b" ∷ [])
unfolding parse_kv_lines parse_line parse_entry split cut trim_cr trim_space valid_env_key put
    format_env
editor_two_lines = refl

parse_kv_lines-format_env_example :
    ((parse_kv_lines (format_env settings)).1 ≡ [])
    × ((k : Bytes) → get k (parse_kv_lines (format_env settings)).0 ≡ get k settings)
unfolding get valid_env_key
parse_kv_lines-format_env_example =
    parse_kv_lines-format_env settings (refl, (refl, (refl, tt)))
      ((refl, refl, refl), ((refl, refl, refl), ((refl, refl, refl), tt)))
