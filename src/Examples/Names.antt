-- ===== src/Examples/Names.antt =====
-- Named semaphores.
use osm_re_exam.Prelude.{
  ℕ, ◌≡◌, refl, inl, inr, List, [], ◌∷◌, Option, some, none, leb→le, ltb→lt, replicate, length,
  get_or, ◌<◌, ◌++◌,
}
use osm_re_exam.Prelude.Int.{pos, negsuc, minus_one}
use osm_re_exam.Prelude.Result.{Result, ok, ◌>>=◌, read, write}
use osm_re_exam.Libc.{stringcmp, stringcopy, copy_loop}
use osm_re_exam.Semaphore.{Semaphores, semaphore_create, take_free}
use osm_re_exam.UserSem.{
  UsrSem, usr_sem_free, usr_sem_used, find_used, free_sem, create_sem, usr_sem_open,
}
use osm_re_exam.UserSem.Names.{blank, usr_sem_open-usr_sem_open}

abbrev unused : UsrSem
unused = record { state = usr_sem_free; name = replicate 32 0; kernel_sem = none }

abbrev no_names : List UsrSem
no_names = replicate 32 unused

abbrev no_semaphores : Semaphores
no_semaphores = record {
  table = replicate 128 (record { value = pos 0; creator = minus_one });
  next = 0;
}

-- "mu"
abbrev name : List ℕ
name = 109 ∷ 117 ∷ 0 ∷ []

abbrev one_name : List UsrSem
one_name =
    record { state = usr_sem_used; name = 109 ∷ 117 ∷ 0 ∷ replicate 29 0; kernel_sem = some 0 }
    ∷ replicate 31 unused

abbrev one_semaphore : Semaphores
one_semaphore = record {
  table =
      record { value = pos 2; creator = pos 1 }
      ∷ replicate 127 (record { value = pos 0; creator = minus_one });
  next = 1;
}

makes :
    usr_sem_open no_names no_semaphores (pos 1) name (pos 2) ≡ ok (some 0, one_name, one_semaphore)
unfolding usr_sem_open find_used free_sem create_sem stringcmp stringcopy copy_loop semaphore_create
    take_free read write
makes = refl

room : 31 < length (get_or no_names (free_sem no_names) blank).name
unfolding free_sem
room = ltb→lt 31 32 refl

usr_sem_open-usr_sem_open_example :
    usr_sem_open one_name one_semaphore (pos 4) name (negsuc 0)
    ≡ ok (some 0, one_name, one_semaphore)
usr_sem_open-usr_sem_open_example =
    usr_sem_open-usr_sem_open no_names no_semaphores (pos 1) name 2 0 one_name one_semaphore
      one_semaphore (pos 4) 0 room (inr (inr (inl refl))) (leb→le 2 31 refl) makes

-- A name of 32 characters is cut off, so that it is not found, and is made twice.
abbrev long_name : List ℕ
long_name = replicate 32 109 ++ (0 ∷ [])

abbrev twice : Result (Option ℕ × Option ℕ)
twice = do
  (first, names, semaphores) ← usr_sem_open no_names no_semaphores (pos 1) long_name (pos 0)
  (second, names2, semaphores2) ← usr_sem_open names semaphores (pos 1) long_name (pos 0)
  ok (first, second)

made_twice : twice ≡ ok (some 0, some 1)
unfolding usr_sem_open find_used free_sem create_sem stringcmp stringcopy copy_loop semaphore_create
    take_free read write
made_twice = refl
