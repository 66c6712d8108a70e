-- ===== src/XmlWriter/Tests.antt =====
-- The theorems on src/xmlwriter.cpp, applied to a writer with a small buffer.
use libmaycloud.Common.{true, false, [], ◌∷◌, arith}
use libmaycloud.XmlWriter.{XmlWriter, output}
use libmaycloud.XmlWriter.Output.{Outputs, output-Outputs}

-- The tag `<a` with the attribute b="<" is open and half in the buffer of four bytes.
abbrev half_open : XmlWriter
half_open = record {
  full = false;
  opened = true;
  stack = (97 ∷ []) ∷ [];
  buflen = 4;
  buffer = 60 ∷ 97 ∷ [];
  attributes = (98 ∷ [], 60 ∷ []) ∷ [];
  written = [];
}

output-Outputs_example :
    Outputs half_open (1 ∷ 2 ∷ 3 ∷ 4 ∷ 5 ∷ []) (output (1 ∷ 2 ∷ 3 ∷ 4 ∷ 5 ∷ []) half_open)
output-Outputs_example = output-Outputs (1 ∷ 2 ∷ 3 ∷ 4 ∷ 5 ∷ []) half_open (omega arith)
