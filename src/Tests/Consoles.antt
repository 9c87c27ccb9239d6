-- ===== src/Tests/Consoles.antt =====
-- Options of a command line, and the server's console.
use qing_liao_chat_server.Base.{◌≡◌, ◌↔◌, refl, true, false, not, [], ◌∷◌, map, ◌||◌}
use qing_liao_chat_server.Error.{ok, err}
use qing_liao_chat_server.Map.{lookup, insert}
use qing_liao_chat_server.Text.{Text, codes, text_beq}
use qing_liao_chat_server.Options.{
  Options, opt_required, opt_no, parse, parse_from, step, long_step, cut_at_equals, missing,
  get_type, required_step, next_value,
}
use qing_liao_chat_server.Options.Values.{has_opt_with_value, get_string}
use qing_liao_chat_server.Options.Parsing.{parse_lem}
use qing_liao_chat_server.Options.Rendering.{render, insert_all, parse-render}
use qing_liao_chat_server.Console.{Console, input, first_word}
use qing_liao_chat_server.Console.Stopping.{input_lem}
use qing_liao_chat_server.Pattern.{email_match, phone_match, regex_match, nullable, after}
use qing_liao_chat_server.Pattern.Addresses.{IsAddress, email_match_lem}
use qing_liao_chat_server.Tests.Data.{two}

abbrev asked : Options
asked = record { opt_map = (codes "name", opt_required) ∷ (codes "v", opt_no) ∷ []; args_map = [] }

abbrev answered : Options
answered = record asked { args_map = (codes "name", codes "a b=c") ∷ [] }

parse_lem_example :
    (answered.opt_map ≡ asked.opt_map)
    × (has_opt_with_value (codes "name") answered ≡ true)
    × ((value : Text) × (get_string (codes "name") answered ≡ ok value))
unfolding parse parse_from step long_step cut_at_equals missing get_type lookup insert required_step
    next_value
parse_lem_example =
    parse_lem (codes "--name" ∷ codes "a b=c" ∷ []) (codes "name") asked answered refl refl

parse-render_example :
    parse (map render ((codes "name", codes "a b=c") ∷ [])) asked
    ≡ (ok tt, record asked { args_map = insert_all ((codes "name", codes "a b=c") ∷ []) [] })
unfolding missing get_type lookup insert
parse-render_example =
    parse-render ((codes "name", codes "a b=c") ∷ []) asked
      ((refl, (refl, (refl, (refl, (refl, tt))))), tt) refl

abbrev running : Console
running = record { stopped = false; log = [] }

input_lem_example :
    let (r, t) = input two.users (codes "stop") running in
    (t.stopped ≡ (elim r [ ok goes_on ↦ not goes_on | err e ↦ false ]))
    × ((not t.stopped || text_beq (codes "stop") (first_word (codes "stop"))) ≡ true)
input_lem_example = input_lem two.users (codes "stop") running refl

email_match-dotted : email_match "a_1.b@mail.example.org" ≡ true
unfolding email_match regex_match nullable after
email_match-dotted = refl

email_match-bare : email_match "a@b" ≡ false
unfolding email_match regex_match nullable after
email_match-bare = refl

email_match-twice : email_match "a@b@c.d" ≡ false
unfolding email_match regex_match nullable after
email_match-twice = refl

phone_match-eleven : phone_match "13800138000" ≡ true
unfolding phone_match regex_match nullable after
phone_match-eleven = refl

email_match_lem_example :
    (email_match "a_1.b@mail.example.org" ≡ true) ↔ IsAddress (codes "a_1.b@mail.example.org")
email_match_lem_example = email_match_lem "a_1.b@mail.example.org"
