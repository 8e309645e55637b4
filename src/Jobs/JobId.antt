-- ===== src/Jobs/JobId.antt =====
-- pkg/jobs/job_id.go: job IDs, and the Kubernetes names made of them.
pub mod RoundTrip
pub mod Names
use jira_cdc_git.Prelude.{
  ℕ, ◌-◌, ◌%◌, Bool, true, false, not, ◌&&◌, ◌||◌, Option, none, some, List, [], ◌∷◌, ◌++◌, map,
  zero, suc, ltb, leb, ◌==◌, if◌then◌else◌, length, get_elem?, take, any,
}
use jira_cdc_git.Prelude.Text.{Text, codes, text_eq}
use jira_cdc_git.Prelude.FilePath.{split}

pub data JobIdError : Type 0 where
  empty_id too_short too_long invalid_characters invalid_format : JobIdError

abbrev pub prefix_or_job : Text → Text
prefix_or_job [] = codes "job"
prefix_or_job (c ∷ prefix) = c ∷ prefix

-- `timestamp` is the time in the layout `20060102-150405`, `random` the random suffix.
unfoldable pub generate : Text → Text → Text → Text
generate timestamp random prefix = prefix_or_job prefix ++ b'-' ∷ (timestamp ++ b'-' ∷ random)

unfoldable pub is_alpha_numeric : ℕ → Bool
is_alpha_numeric b = (leb b'a' b && leb b b'z') || (leb b'0' b && leb b b'9')

-- `strings.Contains(name, "--")`
unfoldable pub has_double_dash : Text → Bool
has_double_dash [] = false
has_double_dash (a ∷ s) = let rest = has_double_dash s in if starts a s then true else rest
  where
    starts : ℕ → Text → Bool
    starts a [] = false
    starts a (b ∷ s) = (a == b'-') && (b == b'-')

-- The last byte of `c ∷ s`.
unfoldable pub last_byte : ℕ → Text → ℕ
last_byte c [] = c
last_byte c (d ∷ s) = last_byte d s

-- `runes` is what a `range` over a string yields; its runes are cut to a byte for the test.
unfoldable pub is_valid_kubernetes_name : (Text → List ℕ) → Text → Bool
is_valid_kubernetes_name runes [] = false
is_valid_kubernetes_name runes (c ∷ s) =
    if not (is_alpha_numeric c) || not (is_alpha_numeric (last_byte c s))
    then false
    else if any (λ rune. not (is_alpha_numeric (rune % 256)) && not (rune == b'-')) (runes (c ∷ s))
    then false
    else not (has_double_dash (c ∷ s))

unfoldable pub validate : (Text → List ℕ) → Text → Option JobIdError
validate runes id =
    if length id == 0
    then some empty_id
    else if ltb (length id) 5
    then some too_short
    else if ltb 63 (length id)
    then some too_long
    else if not (is_valid_kubernetes_name runes id)
    then some invalid_characters
    else none

pub data JobType : Type 0 where
  single batch jql : JobType
  other : Text → JobType

unfoldable pub job_type_of : Text → JobType
job_type_of prefix =
    if text_eq prefix (codes "single")
    then single
    else if text_eq prefix (codes "batch")
    then batch
    else if text_eq prefix (codes "jql")
    then jql
    else other prefix

unfoldable pub text_of_job_type : JobType → Text
text_of_job_type single = codes "single"
text_of_job_type batch = codes "batch"
text_of_job_type jql = codes "jql"
text_of_job_type (other t) = t

unfoldable pub generate_with_type : Text → Text → JobType → Text
generate_with_type timestamp random t = generate timestamp random (text_of_job_type t)

pub record JobIdInfo : Type 0 where
  pub original_id : Text
  pub prefix : Text
  pub timestamp : Text
  pub suffix : Text
  pub job_type : JobType

pub data Parsed : Type 0 where
  parsed : JobIdInfo → Parsed
  refused : JobIdError → Parsed

abbrev part : List Text → ℕ → Text
part parts i = elim (get_elem? parts i) [ none ↦ [] | some p ↦ p ]

abbrev timestamp_of : Text → Text
timestamp_of p = if length p == 15 then p else []

abbrev pub info_of : Text → List Text → JobIdInfo
info_of id parts = record {
  original_id = id;
  prefix = part parts 0;
  timestamp = timestamp_of (part parts (length parts - 2));
  suffix = part parts (length parts - 1);
  job_type = job_type_of (part parts 0);
}

unfoldable pub parse_job_id : Text → Parsed
parse_job_id [] = refused empty_id
parse_job_id (c ∷ id) =
    let parts = split b'-' (c ∷ id) in
    if ltb (length parts) 3 then refused invalid_format else parsed (info_of (c ∷ id) parts)

abbrev pub dash_for : ℕ → ℕ → ℕ
dash_for old c = if c == old then b'-' else c

unfoldable pub prefixed : Text → Text
prefixed [] = []
prefixed (c ∷ name) = if is_alpha_numeric c then c ∷ name else codes "job-" ++ c ∷ name

-- A byte with what is left of those that follow it.
abbrev pub keep_byte : ℕ → Text → Text
keep_byte c [] = if is_alpha_numeric c then c ∷ [] else []
keep_byte c (d ∷ rest) = c ∷ d ∷ rest

-- The loop that cuts the end until it is alphanumeric.
unfoldable pub trim_end : Text → Text
trim_end [] = []
trim_end (c ∷ s) = keep_byte c (trim_end s)

-- `to_lower` is `strings.ToLower`.
unfoldable pub format_job_name : (Text → Text) → Text → Text
format_job_name to_lower id =
    trim_end (take 63 (prefixed (map (dash_for b'.') (map (dash_for b'_') (to_lower id)))))
