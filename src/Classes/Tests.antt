-- ===== src/Classes/Tests.antt =====
-- The class registry at concrete names: a run, and the theorem at it.
use post.Prelude.{◌≡◌, refl, Option, none, some, [], ◌∷◌}
use post.Names.{Name, same_name, string_hash_function}
use post.Classes.{ClassDescriptor, Classes, initial, find_class, register}
use post.Classes.Registry.{initial-IsValid, RegisterAnswer, register-IsValid}

-- "ab" and "b"
abbrev ab : Name
ab = 97 ∷ 98 ∷ []

abbrev b : Name
b = 98 ∷ []

abbrev then_find : Name → Option Classes → Option ClassDescriptor
then_find q none = none
then_find q (some s) = find_class (λ c. c) q s

first_class :
    then_find b (register (λ c. c) b 24 initial) ≡ some (record { name = b; id = 0; size = 24 })
unfolding register initial string_hash_function same_name
first_class = refl

register-IsValid_example : RegisterAnswer (λ c. c) ab 40 initial (register (λ c. c) ab 40 initial)
register-IsValid_example = register-IsValid (λ c. c) ab 40 initial (initial-IsValid (λ c. c))
