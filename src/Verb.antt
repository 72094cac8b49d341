-- ===== src/Verb.antt =====
-- src/core/VerbHandler.h: request methods and the handlers that a route has for them.
use wfrest.Base.{◌≡◌, refl, if◌then◌else◌, equal_nocase, Bytes, codes}

pub data Verb : Type 0 where
  any get post put delete head patch : Verb

pub Verb-discrete : Discrete Verb
Verb-discrete = hlevel

unfoldable pub str_to_verb : Bytes → Verb
unfolding equal_nocase
str_to_verb verb =
    if equal_nocase verb (codes "GET")
    then get
    else if equal_nocase verb (codes "PUT")
    then put
    else if equal_nocase verb (codes "POST")
    then post
    else if equal_nocase verb (codes "DELETE")
    then delete
    else if equal_nocase verb (codes "HEAD")
    then head
    else if equal_nocase verb (codes "PATCH")
    then patch
    else any

unfoldable pub verb_to_str : Verb → Bytes
verb_to_str any = codes "ANY"
verb_to_str get = codes "GET"
verb_to_str post = codes "POST"
verb_to_str put = codes "PUT"
verb_to_str delete = codes "DELETE"
verb_to_str head = codes "HEAD"
verb_to_str patch = codes "PATCH"

-- The name of a verb is read back as the verb.
pub str_to_verb-verb_to_str : (v : Verb) → str_to_verb (verb_to_str v) ≡ v
unfolding str_to_verb verb_to_str
str_to_verb-verb_to_str any = refl
str_to_verb-verb_to_str get = refl
str_to_verb-verb_to_str post = refl
str_to_verb-verb_to_str put = refl
str_to_verb-verb_to_str delete = refl
str_to_verb-verb_to_str head = refl
str_to_verb-verb_to_str patch = refl
