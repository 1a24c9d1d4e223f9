-- ===== src/Tests/Lists.antt =====
-- A list with its head at 100 and its tail at 108.
use pintos_nightmare.Base.{◌≡◌, refl, some, [], ◌∷◌}
use pintos_nightmare.Lists.{
  Heap, LinkedList, list_init, list_insert, list_remove, list_size, link_in, link_out, size_from,
}
use pintos_nightmare.Lists.Sequence.{
  IsList, list_init-IsList, list_insert-IsList, list_remove-IsList,
}

abbrev a_list : LinkedList
a_list = record { head = 100; tail = 108 }

abbrev new_heap : Heap
new_heap = list_init a_list (record { prev = λ k. 0; next = λ k. 0 })

new_heap-IsList : IsList new_heap a_list []
new_heap-IsList = list_init-IsList a_list (record { prev = λ k. 0; next = λ k. 0 }) refl refl refl

list_insert-IsList_example :
    (list_insert 108 300 new_heap ≡ some (link_in 108 300 new_heap))
    × IsList (link_in 108 300 new_heap) a_list (300 ∷ [])
list_insert-IsList_example = list_insert-IsList new_heap a_list 300 [] refl [] new_heap-IsList refl

list_remove-IsList_example :
    (list_remove 300 (link_in 108 300 new_heap)
      ≡ some (link_out 300 (link_in 108 300 new_heap), 108))
    × IsList (link_out 300 (link_in 108 300 new_heap)) a_list []
list_remove-IsList_example =
    list_remove-IsList (link_in 108 300 new_heap) a_list 300 [] [] list_insert-IsList_example.1

-- One element
size_one : list_size 3 a_list (link_in 108 300 new_heap) ≡ some 1
unfolding list_size size_from link_in list_init
size_one = refl
