-- ===== src/Tests/Native.antt =====
-- The theorems on the native methods, at the library of two variables.
use nanobdd.Base.{not, ◌&&◌, Returns, arith}
use nanobdd.Jni.{native_and, var, nvar}
use nanobdd.Jni.Literals.{Unchanged, literals-Unchanged}
use nanobdd.Jni.Results.{IsU32, Answer, native_and-Answer}
use nanobdd.Tests.Sample.{bump, library, ready, t, counts, x, y, x_means, y_means}

small : IsU32 t
small q st = omega (arith, counts.capped q st)

native_and-Answer_example :
    Returns
      (native_and 3 x y library)
      (Answer 2 3 7 (omega arith) library ready small (λ e. e 0 && e 1))
native_and-Answer_example =
    native_and-Answer 2 3 7 (omega arith) library ready small x y (λ e. e 0) (λ e. e 1) x_means
      y_means

literals-Unchanged_example :
    Returns (var 1 library) (Unchanged 2 10 library ready small (λ e. e 1))
    × Returns (nvar 1 library) (Unchanged 2 10 library ready small (λ e. not (e 1)))
literals-Unchanged_example = literals-Unchanged 2 10 library ready small 1 (omega arith)
