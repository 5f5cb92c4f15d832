-- ===== src/Control/Answers.antt =====
-- Which answers `validate_user_input_response` accepts.
mod Tests
use dsh_base_agent.Prelude.{
  ltb, leb, subst, ℕ, ◌≤◌, ◌≡◌, ◌↔◌, refl, ap, String, string_eq, Bool, true, false, ◌&&◌, ◌||◌,
  not, Option, none, some, List, [], ◌∷◌, map, Result, ok, err, arith, raise_if, or_raise,
  returned_then, returned_or, in_order, then_returns, or_returns, ◌>>=◌, ◌>>◌,
}
use dsh_base_agent.Prelude.Lists.{length, any, all, All, All-all, all-All, All-any, any-All}
use dsh_base_agent.Prelude.Sets.{
  mem, IsUnique, from_keys, IsUnique-length, from_keys_of_IsUnique, All-map,
}
use dsh_base_agent.Prelude.Text.{len}
use dsh_base_agent.Plan.Proposal.{all_id_chars}
use dsh_base_agent.Control.UserInput.{
  UserQuestion, UserAnswer, AnswerError, labels, question_id, answer_id, has_duplicates, is_nil,
  is_none, check_answer, check_answers, question_of, validate_options, validate_request,
  UserQuestionOption, is_within, is_at_most, is_option, is_custom, is_answer, validate_fields,
  validate_question, validate_response, validate_user_input_response,
}

-- An answer to a question: distinct labels of its options, one at most unless more may be selected,
-- and a label or a text of the user's own.
pub record IsAnswer (question : UserQuestion) (answer : UserAnswer) : Type 0 where
  pub distinct : IsUnique answer.selected
  pub offered : All (λ label. mem label (labels question) ≡ true) answer.selected
  pub one : question.multi_select ≡ false → length answer.selected ≤ 1
  pub given : (is_nil answer.selected && is_none answer.custom) ≡ false

-- a text of `low` to `high` characters
abbrev pub IsText : ℕ → ℕ → String → Type 0
IsText low high text = (low ≤ len text) × (len text ≤ high)

abbrev pub IsOption : UserQuestionOption → Type 0
IsOption o = IsText 1 100 o.label × ((text : String) → o.description ≡ some text → len text ≤ 500)

-- A question whose fields have the lengths and the characters that the contract gives, whose labels
-- are distinct, with an option at least if more may be selected.
pub record IsQuestion (question : UserQuestion) : Type 0 where
  pub id_length : IsText 1 64 question.id
  pub id_chars : all_id_chars question.id ≡ true
  pub text : IsText 1 1000 question.question
  pub header : (text : String) → question.header ≡ some text → len text ≤ 64
  pub at_most_ten : length question.options ≤ 10
  pub options : All IsOption question.options
  pub distinct : IsUnique (labels question)
  pub offered : (question.multi_select && is_nil question.options) ≡ false

-- Answers to all the questions and to no other, each an answer to its question.
pub record AreAnswers (questions : List UserQuestion) (answers : List UserAnswer) : Type 0 where
  pub some_questions : (1 ≤ length questions) × (length questions ≤ 3)
  pub asked : All IsQuestion questions
  pub named : IsUnique (map question_id questions)
  pub some_answers : (1 ≤ length answers) × (length answers ≤ 3)
  pub texts :
      All
        (λ a. IsText 1 64 a.id × ((text : String) → a.custom ≡ some text → IsText 1 4000 text))
        answers
  pub distinct : IsUnique (map answer_id answers)
  pub complete : All (λ id. mem id (map answer_id answers) ≡ true) (map question_id questions)
  pub known : All (λ id. mem id (map question_id questions) ≡ true) (map answer_id answers)
  pub answered :
      All (λ a. (q : UserQuestion) × (question_of a.id questions ≡ some q) × IsAnswer q a) answers

in_order_both :
    {E : Type 0} (x : Result E (Unit {0})) (rest : List (Result E (Unit {0})))
    → in_order (x ∷ rest) ≡ ok tt
    → (x ≡ ok tt) × (in_order rest ≡ ok tt)
in_order_both (ok _) rest h = (refl, h)
in_order_both (err e) rest h = cc

both_in_order :
    {E : Type 0} (x : Result E (Unit {0})) (rest : List (Result E (Unit {0})))
    → x ≡ ok tt
    → in_order rest ≡ ok tt
    → in_order (x ∷ rest) ≡ ok tt
both_in_order (ok _) rest h later = later
both_in_order (err e) rest h later = cc

IsUnique-has_duplicates : (xs : List String) → has_duplicates xs ≡ false → IsUnique xs
IsUnique-has_duplicates xs h = IsUnique-length xs (ground (arith, h))

has_duplicates-IsUnique : (xs : List String) → IsUnique xs → has_duplicates xs ≡ false
has_duplicates-IsUnique xs u = ground (arith, ap length (from_keys_of_IsUnique xs u))

not-true : (b : Bool) → not b ≡ false → b ≡ true
not-true b h = ground (arith, h)

check_answer-IsAnswer :
    (q : UserQuestion) (a : UserAnswer) → check_answer q a ≡ ok tt → IsAnswer q a
unfolding check_answer
check_answer-IsAnswer q a h = record {
  distinct = IsUnique-has_duplicates a.selected (ground (arith, h));
  offered =
      All-map (λ label. not-true (mem label (labels q))) a.selected
        (All-any (λ label. not (mem label (labels q))) a.selected (ground (arith, h)));
  one = λ single. ground (arith, h, single);
  given = ground (arith, h);
}

at_most_one : (multi : Bool) (n : ℕ) → (multi ≡ false → n ≤ 1) → (not multi && ltb 1 n) ≡ false
at_most_one true n h = refl
at_most_one false n h = ground (arith, h refl)

IsAnswer-check_answer :
    (q : UserQuestion) (a : UserAnswer) → IsAnswer q a → check_answer q a ≡ ok tt
unfolding check_answer
IsAnswer-check_answer q a v =
    let offered =
      any-All (λ label. not (mem label (labels q))) a.selected
        (All-map (λ label h. ap not h) a.selected v.offered) in
    rw (has_duplicates-IsUnique a.selected v.distinct)
      (rw offered (rw (at_most_one q.multi_select (length a.selected) v.one) (rw v.given refl)))

at_most_iff :
    (high : ℕ) (o : Option String)
    → (is_at_most high o ≡ true) ↔ ((text : String) → o ≡ some text → len text ≤ high)
at_most_iff high none = (λ _ text h. cc, λ _. refl)
at_most_iff high (some t) = (
  (λ h text same. subst (λ x. len x ≤ high) (some_eq same) (ground (arith, h))),
  (λ h. ground (arith, h t refl)),
)
  where
    some_eq : {a b : String} → some a ≡ some b → a ≡ b
    some_eq h = cc

custom_iff :
    (o : Option String)
    → (is_custom o ≡ true) ↔ ((text : String) → o ≡ some text → IsText 1 4000 text)
custom_iff none = (λ _ text h. cc, λ _. refl)
custom_iff (some t) = (
  (λ h text same. subst (λ x. IsText 1 4000 x) (some_eq same) (ground (arith, h))),
  (λ h. ground (arith, h t refl)),
)
  where
    some_eq : {a b : String} → some a ≡ some b → a ≡ b
    some_eq h = cc

IsOption-is_option : (o : UserQuestionOption) → is_option o ≡ true → IsOption o
IsOption-is_option o h = (ground (arith, h), (at_most_iff 500 o.description).0 (ground (arith, h)))

is_option-IsOption : (o : UserQuestionOption) → IsOption o → is_option o ≡ true
is_option-IsOption o v = ground (arith, v.0, (at_most_iff 500 o.description).1 v.1)

is_answer-IsText :
    (a : UserAnswer)
    → (is_answer a ≡ true)
      ↔ (IsText 1 64 a.id × ((text : String) → a.custom ≡ some text → IsText 1 4000 text))
is_answer-IsText a = (
  (λ h. (ground (arith, h), (custom_iff a.custom).0 (ground (arith, h)))),
  (λ v. ground (arith, v.0, (custom_iff a.custom).1 v.1)),
)

validate_question_iff : (q : UserQuestion) → (validate_question q ≡ ok tt) ↔ IsQuestion q
unfolding validate_question
validate_question_iff q = (
  (λ h. record {
    id_length = ground (arith, h);
    id_chars = ground (arith, h);
    text = ground (arith, h);
    header = (at_most_iff 64 q.header).0 (ground (arith, h));
    at_most_ten = ground (arith, h);
    options =
        All-map IsOption-is_option q.options (All-all is_option q.options (ground (arith, h)));
    distinct = IsUnique-has_duplicates (labels q) (ground (arith, h));
    offered = ground (arith, h);
  }),
  (λ v. ground (
    arith,
    v.id_length,
    v.id_chars,
    v.text,
    (at_most_iff 64 q.header).1 v.header,
    v.at_most_ten,
    all-All is_option q.options (All-map is_option-IsOption q.options v.options),
    has_duplicates-IsUnique (labels q) v.distinct,
    v.offered,
  )),
)

validate_question_each :
    (questions : List UserQuestion)
    → (in_order (map validate_question questions) ≡ ok tt) ↔ All IsQuestion questions
validate_question_each [] = (λ _. tt, λ _. refl)
validate_question_each (q ∷ rest) =
    let both = validate_question_each rest in
    (
      (λ h.
          let parts = in_order_both (validate_question q) (map validate_question rest) h in
          ((validate_question_iff q).0 parts.0, both.0 parts.1)),
      (λ (valid, later).
          both_in_order (validate_question q) (map validate_question rest)
            ((validate_question_iff q).1 valid) (both.1 later)),
    )

validate_request_iff :
    (questions : List UserQuestion)
    → (validate_request questions ≡ ok tt) ↔ (
        ((1 ≤ length questions) × (length questions ≤ 3))
        × All IsQuestion questions
        × IsUnique (map question_id questions))
unfolding validate_request
validate_request_iff questions =
    let both = validate_question_each questions in
    let each = in_order (map validate_question questions) in
    let bounds = raise_if (not (is_within 1 3 (length questions))) AnswerError.field_bounds in
    (
      (λ h.
          let (first, named) = returned_then (bounds >> each) _ h in
          let (counted, asked) = returned_then bounds each first in
          (
            ground (arith, counted),
            both.0 asked,
            IsUnique-has_duplicates (map question_id questions) (ground (arith, named)),
          )),
      (λ (counted, valid, distinct).
          then_returns (bounds >> each) _
            (then_returns bounds each (ground (arith, counted)) (both.1 valid))
            (rw (has_duplicates-IsUnique (map question_id questions) distinct) refl)),
    )

validate_response_iff :
    (answers : List UserAnswer)
    → (validate_response answers ≡ ok tt) ↔ (
        ((1 ≤ length answers) × (length answers ≤ 3))
        × All
            (λ a. IsText 1 64 a.id × ((text : String) → a.custom ≡ some text → IsText 1 4000 text))
            answers)
unfolding validate_response
validate_response_iff answers = (
  (λ h. (
    ground (arith, h),
    All-map (λ a. (is_answer-IsText a).0) answers (All-all is_answer answers (ground (arith, h))),
  )),
  (λ (counted, each). ground (
    arith,
    counted,
    all-All is_answer answers (All-map (λ a. (is_answer-IsText a).1) answers each),
  )),
)

check_answers_iff :
    (questions : List UserQuestion) (answers : List UserAnswer)
    → (check_answers questions answers ≡ ok tt)
      ↔ All (λ a. (q : UserQuestion) × (question_of a.id questions ≡ some q) × IsAnswer q a) answers
unfolding check_answers
check_answers_iff questions [] = (λ _. tt, λ _. refl)
check_answers_iff questions (a ∷ rest) =
    let both = check_answers_iff questions rest in
    (
      (λ h.
          let (q, found, checked) = returned_or (question_of a.id questions) _ _ h in
          let parts = returned_then (check_answer q a) _ checked in
          ((q, found, check_answer-IsAnswer q a parts.0), both.0 parts.1)),
      (λ ((q, found, valid), later).
          or_returns (question_of a.id questions) _ _ found
            (then_returns (check_answer q a) _ (IsAnswer-check_answer q a valid) (both.1 later))),
    )

-- validate_user_input_response accepts a response just when there are one to three well-formed
-- questions and one to three answers that fit them. The questions have distinct identifiers; each
-- has texts of the lengths, and an identifier of the characters, that the contract gives, at most
-- ten options with distinct labels, and an option if more than one may be selected. The answers
-- have distinct identifiers, which are those of the questions; each has distinct labels out of the
-- options of its question, one at most unless the question allows more, and a label or a text of
-- its own of at most 4000 characters.
pub validate_user_input_response_iff :
    (questions : List UserQuestion) (answers : List UserAnswer)
    → (validate_user_input_response questions answers ≡ ok tt) ↔ AreAnswers questions answers
unfolding validate_user_input_response
validate_user_input_response_iff questions answers =
    let both = check_answers_iff questions answers in
    let complete = λ (id : String). mem id (map answer_id answers) in
    let known = λ (id : String). mem id (map question_id questions) in
    (
      (λ h.
          let (asked, h0) = returned_then (validate_request questions) _ h in
          let (given, h1) = returned_then (validate_response answers) _ h0 in
          let request = (validate_request_iff questions).0 asked in
          let response = (validate_response_iff answers).0 given in
          let (distinct, h2) =
            returned_then (raise_if (has_duplicates (map answer_id answers)) _) _ h1 in
          let unmatched =
            not (all complete (map question_id questions))
            || not (all known (map answer_id answers)) in
          let (matched, h3) = returned_then (raise_if unmatched AnswerError.mismatch) _ h2 in
          record {
            some_questions = request.0;
            asked = request.1;
            named = request.2;
            some_answers = response.0;
            texts = response.1;
            distinct = IsUnique-has_duplicates (map answer_id answers) (ground (arith, distinct));
            complete = All-all complete (map question_id questions) (ground (arith, matched));
            known = All-all known (map answer_id answers) (ground (arith, matched));
            answered = both.0 h3;
          }),
      (λ v.
          then_returns (validate_request questions) _
            ((validate_request_iff questions).1 (v.some_questions, v.asked, v.named))
            (then_returns (validate_response answers) _
              ((validate_response_iff answers).1 (v.some_answers, v.texts))
              (rw (has_duplicates-IsUnique (map answer_id answers) v.distinct) (
                rw (all-All complete (map question_id questions) v.complete)
                  (rw (all-All known (map answer_id answers) v.known) (both.1 v.answered)))))),
    )
