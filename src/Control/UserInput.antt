-- ===== src/Control/UserInput.antt =====
-- sdk/user_input.py: questions to the user and the answers that are accepted. Pydantic parses the
-- values; what is modelled are the bounds of the fields, the validators and
-- `validate_user_input_response`. The length of a text is the number of its characters.
use dsh_base_agent.Prelude.{
  String, string_eq, Bool, true, false, not, ◌&&◌, Option, none, some, List, [], ◌∷◌, map, Result,
  ok, ◌>>=◌, ◌>>◌, ◌||◌, or_raise, ◌==◌, ◌!=◌, nat_eq, ltb, leb, ℕ, raise_if, in_order,
  if◌then◌else◌,
}
use dsh_base_agent.Prelude.Lists.{length, all, any}
use dsh_base_agent.Prelude.Sets.{mem, from_keys}
use dsh_base_agent.Prelude.Text.{len}
use dsh_base_agent.Plan.Proposal.{all_id_chars}

pub record UserQuestionOption : Type 0 where
  pub label : String
  pub description : Option String

pub record UserQuestion : Type 0 where
  pub id : String
  pub question : String
  pub header : Option String
  pub options : List UserQuestionOption
  pub multi_select : Bool

pub record UserAnswer : Type 0 where
  pub id : String
  pub selected : List String
  pub custom : Option String

-- the `ValueError`s
pub data AnswerError : Type 0 where
  duplicate_labels no_options duplicate_questions : AnswerError
  duplicate_answers mismatch duplicate_selections unknown_option : AnswerError
  one_option empty_answer field_bounds : AnswerError

abbrev pub label_of : UserQuestionOption → String
label_of o = o.label

abbrev pub labels : UserQuestion → List String
labels q = map label_of q.options

abbrev pub question_id : UserQuestion → String
question_id q = q.id

abbrev pub answer_id : UserAnswer → String
answer_id a = a.id

-- `len(xs) != len(set(xs))`
abbrev pub has_duplicates : List String → Bool
has_duplicates xs = length xs != length (from_keys xs)

abbrev pub is_nil : {A : Type 0} → List A → Bool
is_nil [] = true
is_nil (_ ∷ _) = false

abbrev pub is_none : {A : Type 0} → Option A → Bool
is_none none = true
is_none (some _) = false

-- `Field(min_length=low, max_length=high)`
abbrev pub is_within : ℕ → ℕ → ℕ → Bool
is_within low high n = leb low n && leb n high

abbrev pub is_at_most : ℕ → Option String → Bool
is_at_most high none = true
is_at_most high (some text) = leb (len text) high

abbrev pub is_option : UserQuestionOption → Bool
is_option o = is_within 1 100 (len o.label) && is_at_most 500 o.description

-- the fields of a question
unfoldable pub validate_fields : UserQuestion → Result AnswerError (Unit {0})
validate_fields q = in_order (
    raise_if (not (is_within 1 64 (len q.id)) || not (all_id_chars q.id)) AnswerError.field_bounds
    ∷ raise_if (not (is_within 1 1000 (len q.question))) AnswerError.field_bounds
    ∷ raise_if (not (is_at_most 64 q.header)) AnswerError.field_bounds
    ∷ raise_if (ltb 10 (length q.options)) AnswerError.field_bounds
    ∷ raise_if (not (all is_option q.options)) AnswerError.field_bounds
    ∷ [])

abbrev pub is_custom : Option String → Bool
is_custom none = true
is_custom (some text) = is_within 1 4000 (len text)

-- the fields of an answer
abbrev pub is_answer : UserAnswer → Bool
is_answer a = is_within 1 64 (len a.id) && is_custom a.custom

-- `UserInputResponse`
unfoldable pub validate_response : List UserAnswer → Result AnswerError (Unit {0})
validate_response answers = in_order (
    raise_if (not (is_within 1 3 (length answers))) AnswerError.field_bounds
    ∷ raise_if (not (all is_answer answers)) AnswerError.field_bounds
    ∷ [])

unfoldable pub validate_options : UserQuestion → Result AnswerError (Unit {0})
validate_options q = in_order (
    raise_if (has_duplicates (labels q)) AnswerError.duplicate_labels
    ∷ raise_if (q.multi_select && is_nil q.options) AnswerError.no_options
    ∷ [])

unfoldable pub validate_question : UserQuestion → Result AnswerError (Unit {0})
unfolding validate_fields validate_options
validate_question q = validate_fields q >> validate_options q

unfoldable pub validate_request : List UserQuestion → Result AnswerError (Unit {0})
unfolding validate_question
validate_request questions =
    raise_if (not (is_within 1 3 (length questions))) AnswerError.field_bounds
    >> in_order (map validate_question questions)
    >> raise_if (has_duplicates (map question_id questions)) AnswerError.duplicate_questions

-- the body of the loop over the answers
unfoldable pub check_answer : UserQuestion → UserAnswer → Result AnswerError (Unit {0})
check_answer question answer = in_order (
    raise_if (has_duplicates answer.selected) AnswerError.duplicate_selections
    ∷ raise_if (any (λ label. not (mem label (labels question))) answer.selected)
        AnswerError.unknown_option
    ∷ raise_if (not question.multi_select && ltb 1 (length answer.selected)) AnswerError.one_option
    ∷ raise_if (is_nil answer.selected && is_none answer.custom) AnswerError.empty_answer
    ∷ [])

-- `questions[identifier]`; the identifiers of the questions are distinct
unfoldable pub question_of : String → List UserQuestion → Option UserQuestion
question_of id [] = none
question_of id (q ∷ qs) = if id == q.id then some q else question_of id qs

unfoldable pub check_answers : List UserQuestion → List UserAnswer → Result AnswerError (Unit {0})
unfolding check_answer question_of
check_answers questions [] = ok tt
check_answers questions (a ∷ rest) = do
  q ← or_raise (question_of a.id questions) AnswerError.mismatch
  check_answer q a
  check_answers questions rest

unfoldable pub validate_user_input_response :
    List UserQuestion → List UserAnswer → Result AnswerError (Unit {0})
unfolding validate_request validate_response check_answers
validate_user_input_response questions answers = do
  validate_request questions
  validate_response answers
  raise_if (has_duplicates (map answer_id answers)) AnswerError.duplicate_answers
  raise_if
      (not (all (λ q. mem q (map answer_id answers)) (map question_id questions))
        || not (all (λ a. mem a (map question_id questions)) (map answer_id answers)))
      AnswerError.mismatch
  check_answers questions answers
