-- ===== src/Cli/Acts.antt =====
-- What a command asks for, and the word that says so.
use drover.Prelude.{
  ℕ, String, Bool, true, false, List, [], ◌∷◌, Option, none, some, str_eq, eq_iff, ◌≡◌, refl, sym,
  ap, ◌∙◌, inl, inr, if◌then◌else◌, ok, err, Bool-cases, Option-cases, Result-cases,
}
use drover.Web.Server.{parse_job_id}
use drover.Cli.Commands.{Surroundings, EnqueueFlags, WebConfig, enqueue_args, parse_web_config}
use drover.Cli.Run.{
  Command, version_command, stats_command, bad_command, list_command, retry_command, cancel_command,
  enqueue_command, web_command, list_of, command_of,
}

-- What a command line may do to the store.
pub data Act : Type 0 where
  retries cancels : ℕ → Act
  enqueues : EnqueueFlags → Act
  shows_page : WebConfig → Act

abbrev pub word_of : Act → String
word_of (retries n) = "retry"
word_of (cancels n) = "cancel"
word_of (enqueues f) = "enqueue"
word_of (shows_page cfg) = "web"

pub none_not_some : {A : Type 0} {a : A} → Path (Option A) none (some a) → ⊥
none_not_some e = cc

some_inj : {A : Type 0} {a b : A} → Path (Option A) (some a) (some b) → a ≡ b
some_inj e = cc

module _ {S : Type 0} (world : Surroundings S) where
  -- An act of one argument, if it is a job id.
  abbrev pub on_job : (ℕ → Act) → List String → Option Act
  on_job f [] = none
  on_job f (a ∷ b ∷ args) = none
  on_job f (a ∷ []) = elim (parse_job_id world.nums world.trim a) [
    | none ↦ none
    | some n ↦ some (f n)
  ]

  -- What a command asks for.
  abbrev pub asked : Bool → Command → Option Act
  asked json (retry_command args) = on_job retries args
  asked json (cancel_command args) = on_job cancels args
  asked json (enqueue_command args) = elim (enqueue_args world.valid args) [
    | err e ↦ none
    | ok f ↦ some (enqueues f)
  ]
  asked json (web_command args) =
      if json then none else elim (parse_web_config world.parse_duration args) [
        | err e ↦ none
        | ok cfg ↦ some (shows_page cfg)
      ]
  asked json bad_command = none
  asked json version_command = none
  asked json stats_command = none
  asked json (list_command args) = none

  -- The command is the one its word names.
  abbrev Fits : String → Command → Type 0
  Fits name (retry_command args) = str_eq name "retry" ≡ true
  Fits name (cancel_command args) = str_eq name "cancel" ≡ true
  Fits name (enqueue_command args) = str_eq name "enqueue" ≡ true
  Fits name (web_command args) = str_eq name "web" ≡ true
  Fits name bad_command = Unit
  Fits name version_command = Unit
  Fits name stats_command = Unit
  Fits name (list_command args) = Unit

  list_of-Fits : (name : String) (args : List String) → Fits name (list_of args)
  list_of-Fits name [] = tt
  list_of-Fits name (a ∷ args) = elim (Bool-cases (str_eq a "list")) [
    | inl e ↦ rw e tt
    | inr e ↦ rw e tt
  ]

  -- The words behind "jobs".
  late_Fits :
      (name : String) (args : List String)
      → Fits name (
          if str_eq name "retry"
          then retry_command args
          else if str_eq name "cancel"
          then cancel_command args
          else if str_eq name "enqueue"
          then enqueue_command args
          else if str_eq name "web"
          then web_command args
          else bad_command)
  late_Fits name args = elim (Bool-cases (str_eq name "retry")) [
    | inl e ↦ rw e e
    | inr n1 ↦ elim (Bool-cases (str_eq name "cancel")) [
      | inl e ↦ rw n1 (rw e e)
      | inr n2 ↦ elim (Bool-cases (str_eq name "enqueue")) [
        | inl e ↦ rw n1 (rw n2 (rw e e))
        | inr n3 ↦ elim (Bool-cases (str_eq name "web")) [
          | inl e ↦ rw n1 (rw n2 (rw n3 (rw e e)))
          | inr n4 ↦ rw n1 (rw n2 (rw n3 (rw n4 tt)))
        ]
      ]
    ]
  ]

  command_of-Fits : (name : String) (args : List String) → Fits name (command_of (name ∷ args))
  unfolding command_of
  command_of-Fits name args = elim (Bool-cases (str_eq name "version")) [
    | inl e ↦ rw e tt
    | inr n1 ↦ elim (Bool-cases (str_eq name "stats")) [
      | inl e ↦ rw n1 (rw e tt)
      | inr n2 ↦ elim (Bool-cases (str_eq name "jobs")) [
        | inl e ↦ rw n1 (rw n2 (rw e (list_of-Fits name args)))
        | inr n3 ↦ rw n1 (rw n2 (rw n3 (late_Fits name args)))
      ]
    ]
  ]

  on_job-word :
      (f : ℕ → Act) (args : List String) (a : Act) (word : String)
      → ((n : ℕ) → word_of (f n) ≡ word)
      → on_job f args ≡ some a
      → word_of a ≡ word
  on_job-word f [] a word h e = absurd cc
  on_job-word f (b ∷ d ∷ args) a word h e = absurd cc
  on_job-word f (b ∷ []) a word h e = elim (Option-cases (parse_job_id world.nums world.trim b)) [
    | inl bad ↦
        let none_asked : on_job f (b ∷ []) ≡ none = rw (bad, on_job) refl in
        absurd (none_not_some (sym none_asked ∙ e))
    | inr (n, good) ↦
        let one_asked : on_job f (b ∷ []) ≡ some (f n) = rw (good, on_job) refl in
        ap word_of (some_inj (sym e ∙ one_asked)) ∙ h n
  ]

  -- What is asked for is what the command's word says.
  asked-word :
      (json : Bool) (name : String) (c : Command) (a : Act)
      → Fits name c
      → asked json c ≡ some a
      → name ≡ word_of a
  asked-word json name (retry_command args) a fits e =
      (eq_iff name "retry").0 fits ∙ sym (on_job-word retries args a "retry" (λ n. refl) e)
  asked-word json name (cancel_command args) a fits e =
      (eq_iff name "cancel").0 fits ∙ sym (on_job-word cancels args a "cancel" (λ n. refl) e)
  asked-word json name (enqueue_command args) a fits e =
      elim (Result-cases (enqueue_args world.valid args)) [
        | inl (f, good) ↦
            let one_asked : asked json (enqueue_command args) ≡ some (enqueues f) =
              rw (good, asked) refl in
            (eq_iff name "enqueue").0 fits ∙ ap word_of (some_inj (sym one_asked ∙ e))
        | inr (bad, h) ↦
            let none_asked : asked json (enqueue_command args) ≡ none = rw (h, asked) refl in
            absurd (none_not_some (sym none_asked ∙ e))
      ]
  asked-word true name (web_command args) a fits e = absurd (none_not_some e)
  asked-word false name (web_command args) a fits e =
      elim (Result-cases (parse_web_config world.parse_duration args)) [
        | inl (cfg, good) ↦
            let one_asked : asked false (web_command args) ≡ some (shows_page cfg) =
              rw (good, asked) refl in
            (eq_iff name "web").0 fits ∙ ap word_of (some_inj (sym one_asked ∙ e))
        | inr (bad, h) ↦
            let none_asked : asked false (web_command args) ≡ none = rw (h, asked) refl in
            absurd (none_not_some (sym none_asked ∙ e))
      ]
  asked-word json name bad_command a fits e = absurd (none_not_some e)
  asked-word json name version_command a fits e = absurd (none_not_some e)
  asked-word json name stats_command a fits e = absurd (none_not_some e)
  asked-word json name (list_command args) a fits e = absurd (none_not_some e)

  pub command_of-word :
      (json : Bool) (rest : List String) (a : Act)
      → asked json (command_of rest) ≡ some a
      → (args : List String) × (rest ≡ word_of a ∷ args)
  unfolding command_of
  command_of-word json [] a e = absurd (none_not_some e)
  command_of-word json (name ∷ args) a e = (
    args,
    ap (λ n. n ∷ args)
        (asked-word json name (command_of (name ∷ args)) a (command_of-Fits name args) e),
  )
