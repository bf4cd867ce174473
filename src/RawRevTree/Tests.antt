-- ===== src/RawRevTree/Tests.antt =====
-- A tree of two revisions and a remote, stored and read back.
use cbl.Prelude.{◌≡◌, refl, arith, [], ◌∷◌, slice_eq, Slice, ok}
use cbl.Fleece.Sample.{sample, read_one}
use cbl.RevId.{generation}
use cbl.RevTree.{RevTree, empty_tree, get}
use cbl.RevTree.Insert.{insert}
use cbl.RevTree.Tests.{child, child-IsTree}
use cbl.RevTree.WellFormed.{IsTree}
use cbl.RawRevTree.{encode_tree, decode, size_to_write}
use cbl.RawRevTree.Stored.{Storable}
use cbl.RawRevTree.Whole.{StorableTree, tree_image, decode-encode_tree}

abbrev pub pushed : RevTree
pushed = record child.tree { remote_revs = (1, 0) ∷ [] }

pub pushed-IsTree : IsTree sample pushed
unfolding insert generation get slice_eq read_one empty_tree
pushed-IsTree = record {
  stored = child-IsTree.stored;
  distinct = child-IsTree.distinct;
  parents = child-IsTree.parents;
  unique = child-IsTree.unique;
  leaves = child-IsTree.leaves;
  unmarked = child-IsTree.unmarked;
  remotes = (refl, tt);
}

root-Storable : Storable sample (pushed.heap 0)
unfolding insert generation get slice_eq read_one empty_tree size_to_write
root-Storable = record {
  id_fits = omega arith;
  sequence_fits = omega arith;
  size_fits = omega arith;
  unmarked = refl;
}

child-Storable : Storable sample (pushed.heap 1)
unfolding insert generation get slice_eq read_one empty_tree size_to_write
child-Storable = record {
  id_fits = omega arith;
  sequence_fits = omega arith;
  size_fits = omega arith;
  unmarked = refl;
}

pub pushed-StorableTree : StorableTree sample pushed
unfolding insert generation get slice_eq read_one empty_tree
pushed-StorableTree = record {
  revs = (root-Storable, (child-Storable, tt));
  few = omega arith;
  remotes = (omega arith, omega arith, refl, tt);
}

decode-encode_tree_example :
    (s : Slice) × (encode_tree sample pushed ≡ ok s)
    × (decode sample 5 s ≡ ok (tree_image 5 pushed))
decode-encode_tree_example = decode-encode_tree sample pushed 5 pushed-IsTree pushed-StorableTree
