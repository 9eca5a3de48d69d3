-- ===== src/Review.antt =====
-- tools/review/src: the types of types.ts, the keys of findings, and the insertion-ordered Map that
-- the functions of github.ts are written with. A line is a positive number or absent. SHA-1 and the
-- regular expressions that make a slug are arguments.
mod Tests
pub mod Plan
pub mod Sink
pub mod Passes
pub mod Diff
use ai_de.Common.{
  ℕ, String, Bool, true, false, ◌≤◌, Option, none, some, List, [], ◌∷◌, if◌then◌else◌, str_eq,
  text_append,
}

pub data Severity : Type 0 where
  high medium low nit : Severity

-- the position in `SEVERITIES`: the most severe first
abbrev pub rank : Severity → ℕ
rank high = 0
rank medium = 1
rank low = 2
rank nit = 3

pub record Finding : Type 0 where
  pub severity : Severity
  pub file : String
  pub line : Option ℕ
  pub title : String
  pub detail : String
  pub suggestion : String
  pub pass : String

pub record Retraction : Type 0 where
  pub finding_key : String
  pub reason : String

pub record PriorFinding : Type 0 where
  pub finding_key : String
  pub pass : String
  pub file : String
  pub line : Option ℕ
  pub title : String
  pub detail : String

pub record ThreadInfo : Type 0 where
  pub thread_key : String
  pub pass : Option String
  pub path : Option String
  pub line : Option ℕ
  pub title : String
  pub detail : String
  pub thread_id : String
  pub is_resolved : Bool
  pub root_comment_id : ℕ
  pub noted : Bool
  pub dismiss_reply : Bool
  pub human_resolved : Bool
  pub acked : Bool
  pub retracted : Bool

-- What `findingKey` takes from outside: the first ten digits of a SHA-1 in hexadecimal, and the slug
-- of a title.
pub record KeyTexts : Type 0 where
  pub digest : String → String
  pub slug : String → String

abbrev pub key_of : KeyTexts → Finding → String
key_of texts f = texts.digest (
    text_append f.pass
      (text_append " :: " (text_append f.file (text_append " :: " (texts.slug f.title)))))
