-- ===== src/Sysutil/Tests.antt =====
-- Examples for src/ts/common/sysutil.cc.
use jvm.Common.{◌≡◌, ◌≢◌, ◌⊎◌, refl, true, List, [], ◌∷◌, none, some, pos}
use jvm.Sysutil.{before, Readdir, Contents, get_directory_contents}
use jvm.Sysutil.Laws.{elem, entries, get_directory_contents-elem}

abbrev calls : List Readdir
calls =
    record { ret = pos 0; name = some (b'.' ∷ []) }
    ∷ record { ret = pos 0; name = some (b'4' ∷ b'2' ∷ []) }
    ∷ record { ret = pos 0; name = some (b'4' ∷ []) }
    ∷ record { ret = pos 0; name = none }
    ∷ []

abbrev contents : Contents
contents = record { children = (b'4' ∷ []) ∷ (b'4' ∷ b'2' ∷ []) ∷ []; error = none; closed = true }

get_directory_contents-calls : get_directory_contents true calls ≡ some contents
unfolding get_directory_contents before
get_directory_contents-calls = refl

get_directory_contents-elem_example :
    (contents.closed ≡ true)
    × (((contents.error ≡ none)
          × (elem (b'4' ∷ []) contents.children ≡ elem (b'4' ∷ []) (entries calls)))
        ⊎ ((contents.error ≢ none) × (contents.children ≡ [])))
get_directory_contents-elem_example =
    get_directory_contents-elem (b'4' ∷ []) true calls contents get_directory_contents-calls
