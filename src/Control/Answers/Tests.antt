-- ===== src/Control/Answers/Tests.antt =====
-- Answers that are accepted, and answers that are not.
use dsh_base_agent.Prelude.{◌≡◌, ◌↔◌, refl, false, none, some, [], ◌∷◌, ok, err}
use dsh_base_agent.Prelude.Text.{len}
use dsh_base_agent.Control.UserInput.{
  UserQuestion, UserAnswer, AnswerError, validate_fields, validate_question, validate_response,
  validate_options, validate_request, check_answer, check_answers, question_of,
  validate_user_input_response,
}
use dsh_base_agent.Control.Answers.{AreAnswers, validate_user_input_response_iff}

abbrev size : UserQuestion
size = record {
  id = "size";
  question = "Which size?";
  header = none;
  options =
      record { label = "small"; description = none }
      ∷ record { label = "large"; description = none }
      ∷ [];
  multi_select = false;
}

abbrev note : UserQuestion
note = record {
  id = "note";
  question = "Anything else?";
  header = none;
  options = [];
  multi_select = false;
}

abbrev small : UserAnswer
small = record { id = "size"; selected = "small" ∷ []; custom = none }

abbrev nothing : UserAnswer
nothing = record { id = "note"; selected = []; custom = none }

abbrev thanks : UserAnswer
thanks = record { id = "note"; selected = []; custom = some "no, thanks" }

validate_user_input_response_iff_example :
    (validate_user_input_response (size ∷ note ∷ []) (thanks ∷ small ∷ []) ≡ ok tt)
    ↔ AreAnswers (size ∷ note ∷ []) (thanks ∷ small ∷ [])
validate_user_input_response_iff_example =
    validate_user_input_response_iff (size ∷ note ∷ []) (thanks ∷ small ∷ [])

-- what the tests compute with
abbrev program : Unit {0}
unfolding len validate_fields validate_question validate_response validate_options validate_request
    check_answer check_answers question_of validate_user_input_response
program = tt

accepted : validate_user_input_response (size ∷ note ∷ []) (thanks ∷ small ∷ []) ≡ ok tt
unfolding program
accepted = refl

one_missing :
    validate_user_input_response (size ∷ note ∷ []) (small ∷ []) ≡ err AnswerError.mismatch
unfolding program
one_missing = refl

one_empty :
    validate_user_input_response (size ∷ note ∷ []) (nothing ∷ small ∷ [])
    ≡ err AnswerError.empty_answer
unfolding program
one_empty = refl

no_question : validate_user_input_response [] [] ≡ err AnswerError.field_bounds
unfolding program
no_question = refl
